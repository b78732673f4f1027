-- ===== src/NetworkProcfs/Examples.antt =====
-- Concrete runs of network_procfs.c.
use mathlib.Core.List.{Permᴰ}
use mathlib.Core.Quot
use kernel_modules_playgroun.Prelude.{
  take, ℕ, suc, ◌≡◌, ◌≢◌, refl, true, false, none, some, List, [], ◌∷◌, if◌then◌else◌, arith, pos,
  enomem, map, u32, signed32,
}
use kernel_modules_playgroun.Prelude.Bytes.{Text, text}
use kernel_modules_playgroun.NetworkProcfs.Machine.{Ptr, done, fault, Ends, Block, SkBuff, ◌>>◌}
use kernel_modules_playgroun.NetworkProcfs.Driver.{
  nf_accept, add_to_list_network, hook_func, init_packet, release_list, cleanup_packet, my_write,
}
use kernel_modules_playgroun.NetworkProcfs.Linked.{Chain, has, IsNet}
use kernel_modules_playgroun.NetworkProcfs.Adding.{account, Keeps, add_to_list_network-account}
use kernel_modules_playgroun.NetworkProcfs.Traffic.{
  Packet, Supplied, source_of, size_of, traffic, hook_func-account,
}
use kernel_modules_playgroun.NetworkProcfs.Accounting.{view}
use kernel_modules_playgroun.NetworkProcfs.Order.{Bag, bag_of, told, loaded_traffic-bag}
use kernel_modules_playgroun.NetworkProcfs.Loading.{root_entry, init_packet_lem}
use kernel_modules_playgroun.NetworkProcfs.Reading.{
  print, line_of, sources, cleared, print_lem, my_write-cleared,
}
use kernel_modules_playgroun.NetworkProcfs.Files.{
  swaps_op, fops, seq_read, is_empty, cat, zero_line, cat_lem, seq_read-my_write,
}
use kernel_modules_playgroun.NetworkProcfs.Releasing.{cleanup_packet-frees, release_list-fault}
use kernel_modules_playgroun.NetworkProcfs.Cases.{
  network_header, dotted, kernel, local_chain, local_net, local_net-IsNet, block, local_packet,
  remote_packet, unloaded_net, granted, refused,
}

add_to_list_network-account_test :
    Ends
      (λ _. Keeps local_net 300 (account 300 (text "10.0.0.1") 60 local_chain))
      (add_to_list_network 3 (block 300) (text "10.0.0.1") 60 local_net)
add_to_list_network-account_test =
    add_to_list_network-account 3 (block 300) (text "10.0.0.1") 60 local_net local_chain
      local_net-IsNet (omega arith) (omega arith) (λ e. absurd (omega arith)) refl

hook_func-account_test :
    Ends
      (λ verdict s'.
        (verdict ≡ nf_accept)
        × Keeps local_net 300
            (account 300
              (source_of kernel remote_packet)
              (size_of kernel remote_packet)
              local_chain)
            s')
      (hook_func network_header dotted 3 (block 300) (some remote_packet) local_net)
hook_func-account_test =
    hook_func-account kernel 3 (block 300) remote_packet local_net local_chain local_net-IsNet
      (omega arith) (λ e. absurd (omega arith)) refl

init_packet_lem_example :
    Ends
      (λ ret s'.
        IsNet s' ((100, root_entry) ∷ [])
        × (s'.hooked ≡ true)
        × (s'.listed ≡ false)
        × (ret ≡ (if false then pos 0 else enomem))
        × ((p : Ptr) → p ≢ 100 → s'.cells p ≡ none))
      (init_packet refused unloaded_net)
init_packet_lem_example =
    init_packet_lem refused unloaded_net (refl, refl, refl) refl (λ e. absurd (omega arith))

abbrev packets : List Packet
packets = (block 200, local_packet) ∷ (block 300, remote_packet) ∷ (block 400, local_packet) ∷ []

packets-Supplied : Supplied unloaded_net packets
packets-Supplied = (
  (λ e. absurd (omega arith)),
  refl,
  ((λ e. absurd (omega arith)), ((λ e. absurd (omega arith)), tt)),
  (
    (λ e. absurd (omega arith)),
    refl,
    ((λ e. absurd (omega arith)), tt),
    ((λ e. absurd (omega arith)), refl, tt, tt),
  ),
)

-- The same packets in another order.
abbrev bag : Bag
bag = Quot.mk (remote_packet ∷ local_packet ∷ local_packet ∷ [])

swapped : bag_of packets ≡ bag
swapped = Quot.sound (Permᴰ.swap refl refl)

loaded_traffic-bag_example :
    Ends
      (λ _ s'. (ys : Chain) × IsNet s' ys × ((t : Text) → t ≢ [] → view t ys ≡ told kernel bag t))
      ((do init_packet granted; traffic kernel 5 packets) unloaded_net)
loaded_traffic-bag_example =
    loaded_traffic-bag kernel granted unloaded_net 5 packets bag swapped (refl, refl, refl) refl
      (λ e. absurd (omega arith)) packets-Supplied
      (
        (λ e. absurd (omega arith)),
        ((λ e. absurd (omega arith)), ((λ e. absurd (omega arith)), tt)),
      )
      (omega arith)

print_lem_test : print 3 local_net ≡ done (map line_of (sources local_chain)) local_net
print_lem_test = print_lem 3 local_net local_chain local_net-IsNet (omega arith)

my_write-cleared_test :
    Ends
      (λ ret s'. IsNet s' (cleared local_chain) × (ret ≡ signed32 (u32 5)))
      (my_write 3 5 local_net)
my_write-cleared_test = my_write-cleared 3 local_net local_chain local_net-IsNet (omega arith) 5

cleanup_packet-frees_example :
    Ends
      (λ _ s'.
        ((a : Ptr) → s'.cells a ≡ (if has a local_chain then none else local_net.cells a))
        × (s'.cache ≡ false)
        × (s'.hooked ≡ false)
        × (s'.listed ≡ false))
      (cleanup_packet 3 local_net)
cleanup_packet-frees_example =
    cleanup_packet-frees 3 local_net local_chain local_net-IsNet (omega arith)

release_list-fault_example :
    Ends
      (λ _ s'.
        (s'.hooked ≡ true)
        × ((n : ℕ) (b : Block) (p : SkBuff)
            → hook_func network_header dotted (suc n) b (some p) s' ≡ fault))
      (release_list 3 local_net)
release_list-fault_example =
    release_list-fault 3 local_net local_chain local_net-IsNet (omega arith) kernel

cat_lem_example :
    (seq_read swaps_op 2 3 1 local_net
      ≡ done (take 2 (map line_of (sources local_chain))) local_net)
    × (cat swaps_op 2 5 3 1 local_net
        ≡ done (if is_empty (map line_of (sources local_chain)) then some [] else none) local_net)
cat_lem_example = cat_lem 3 local_net local_chain local_net-IsNet (omega arith) 1 4 1

seq_read-my_write_example :
    Ends
      (λ lines s'.
        (lines ≡ take 2 (map zero_line (sources local_chain))) × IsNet s' (cleared local_chain))
      ((do fops.write 3 5; seq_read swaps_op 2 3 0) local_net)
seq_read-my_write_example =
    seq_read-my_write 3 local_net local_chain local_net-IsNet (omega arith) 2 5 0
