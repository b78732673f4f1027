-- ===== src/Filters/Driver.antt =====
-- The functions of packet_filter.c, packet_block_protocol.c and packet_hello.c. `nfho` is the
-- address of the `struct nf_hook_ops` of the module.
use kernel_modules_playgroun.Prelude.{ℕ, ◌==◌, if◌then◌else◌, none, some, ◌∷◌, ℤ, pos}
use kernel_modules_playgroun.Filters.Netfilter.{
  drop, accept, source_address, dropping, going_out, hello, Hook, Ops, pf_inet, nf_ip_pri_first,
  Netfilter,
}

-- packet_block_protocol.c; `skb_network_header` on NULL is a crash, so that the test behind it
-- never finds NULL.
unfoldable pub block_hook : Hook
block_hook none g = none
block_hook (some skb) g =
    let g = record g { sock_buff = some skb; ip_header = some skb.network_header } in
    if skb.network_header.protocol == 1
    then some (
      record g {
        icmp_header = some skb.transport_header;
        log = dropping ∷ source_address skb.network_header.saddr ∷ g.log;
      },
      drop,
    )
    else some (g, accept)

-- packet_filter.c
unfoldable pub out_hook : Hook
out_hook skb g = some (record g { log = going_out ∷ g.log }, accept)

-- packet_hello.c, which reads `skb->sk`.
unfoldable pub my_hook : Hook
my_hook none g = none
my_hook (some skb) g = some (record g { log = hello ∷ g.log }, accept)

abbrev pub block_ops : ℕ → Ops
block_ops nfho = record {
  address = nfho;
  hook = block_hook;
  hooknum = 1;
  pf = pf_inet;
  priority = nf_ip_pri_first;
}

abbrev pub out_ops : ℕ → Ops
out_ops nfho = record {
  address = nfho;
  hook = out_hook;
  hooknum = 3;
  pf = pf_inet;
  priority = nf_ip_pri_first;
}

abbrev pub my_ops : ℕ → Ops
my_ops nfho = record {
  address = nfho;
  hook = my_hook;
  hooknum = 0;
  pf = pf_inet;
  priority = nf_ip_pri_first;
}

-- The three modules, which differ in their hook and its number. The result of `nf_register_hook` is
-- not looked at.
module _ (netfilter : Netfilter) where
  open netfilter use {Table, nf_register_hook, nf_unregister_hook}

  unfoldable pub init_packet : ℕ → Table → Table × ℤ
  init_packet nfho t = (nf_register_hook (block_ops nfho) t, pos 0)

  unfoldable pub cleanup_packet : ℕ → Table → Table
  cleanup_packet nfho t = nf_unregister_hook (block_ops nfho) t

  unfoldable pub init_module : ℕ → Table → Table × ℤ
  init_module nfho t = (nf_register_hook (out_ops nfho) t, pos 0)

  unfoldable pub cleanup_module : ℕ → Table → Table
  cleanup_module nfho t = nf_unregister_hook (out_ops nfho) t

  unfoldable pub init_filter_if : ℕ → Table → Table × ℤ
  init_filter_if nfho t = (nf_register_hook (my_ops nfho) t, pos 0)

  unfoldable pub hello_init : ℕ → Table → Table × ℤ
  hello_init nfho t = ((init_filter_if nfho t).0, pos 0)

  unfoldable pub hello_cleanup : ℕ → Table → Table
  hello_cleanup nfho t = nf_unregister_hook (my_ops nfho) t
