-- ===== src/Filters/Examples.antt =====
-- The filters over a table that is a function, with a ping, a TCP packet and a hook that was there
-- before.
use kernel_modules_playgroun.Prelude.{ℕ, if◌then◌else◌, ◌≡◌, refl, none, some, List, [], ◌∷◌}
use kernel_modules_playgroun.Filters.Netfilter.{
  drop, accept, SkBuff, Globals, source_address, dropping, going_out, hello, Ops, pf_inet, insert,
  without, hooked_at, Netfilter, along,
}
use kernel_modules_playgroun.Filters.Driver.{
  out_hook, init_packet, cleanup_packet, init_module, cleanup_module, hello_init, hello_cleanup,
}
use kernel_modules_playgroun.Filters.Loading.{unload-load}
use kernel_modules_playgroun.Filters.Traffic.{
  dropped, traffic, all_loaded, way_in, way_out, Passes, init_packet-along, all_loaded-traffic,
}

abbrev netfilter : Netfilter
netfilter = record {
  Table = ℕ → ℕ → List Ops;
  hooks = λ t. t;
  nf_register_hook = λ o t pf n. if hooked_at o pf n then insert o (t pf n) else t pf n;
  nf_unregister_hook = λ o t pf n. if hooked_at o pf n then without o.address (t pf n) else t pf n;
  hooks-register = λ o t pf n. refl;
  hooks-unregister = λ o t pf n. refl;
}

abbrev ping : SkBuff
ping = record {
  network_header = record { protocol = 1; saddr = 2130706433 };
  transport_header = 20;
}

abbrev segment : SkBuff
segment = record {
  network_header = record { protocol = 6; saddr = 167772161 };
  transport_header = 20;
}

abbrev quiet : Globals
quiet = record { sock_buff = none; icmp_header = none; ip_header = none; log = [] }

abbrev firewall : Ops
firewall = record { address = 96; hook = out_hook; pf = pf_inet; hooknum = 1; priority = 900 }

abbrev with_firewall : ℕ → ℕ → List Ops
with_firewall pf n = if hooked_at firewall pf n then firewall ∷ [] else []

unload-load_test :
    (cleanup_packet netfilter 32 (init_packet netfilter 32 with_firewall).0 pf_inet 1
      ≡ firewall ∷ [])
    × (cleanup_module netfilter 32 (init_module netfilter 32 with_firewall).0 pf_inet 1
        ≡ firewall ∷ [])
    × (hello_cleanup netfilter 32 (hello_init netfilter 32 with_firewall).0 pf_inet 1
        ≡ firewall ∷ [])
unload-load_test = unload-load netfilter 32 with_firewall pf_inet 1 refl

init_packet-along_test :
    along ((init_packet netfilter 32 with_firewall).0 pf_inet 1) (some ping) quiet
    ≡ some (dropped ping quiet, drop)
init_packet-along_test = init_packet-along netfilter 32 with_firewall ping quiet refl

all_loaded-traffic_example :
    let u = all_loaded netfilter 32 64 96 (λ pf n. []) in
    Passes
      (hello ∷ dropping ∷ source_address 2130706433 ∷ hello ∷ [])
      (drop ∷ accept ∷ [])
      (traffic (way_in netfilter u) (ping ∷ segment ∷ []) quiet)
    × Passes
        (going_out ∷ going_out ∷ [])
        (accept ∷ accept ∷ [])
        (traffic (way_out netfilter u) (ping ∷ segment ∷ []) quiet)
all_loaded-traffic_example =
    all_loaded-traffic netfilter 32 64 96 (λ pf n. []) (ping ∷ segment ∷ []) quiet (λ n. refl)
