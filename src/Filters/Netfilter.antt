-- ===== src/Filters/Netfilter.antt =====
-- The kernel's packet hooks, as far as the packet filters rely on them.
use kernel_modules_playgroun.Prelude.{
  ℕ, Bool, false, ltb, ◌==◌, ◌&&◌, ◌||◌, if◌then◌else◌, ◌≡◌, Option, none, some, List, [], ◌∷◌,
}

pub data Verdict : Type 0 where
  drop accept : Verdict

-- `struct iphdr` and `struct sk_buff`, as far as they are read; a header is where the buffer points.
pub record Iphdr : Type 0 where
  pub protocol : ℕ
  pub saddr : ℕ

pub record SkBuff : Type 0 where
  pub network_header : Iphdr
  pub transport_header : ℕ

pub data Message : Type 0 where
  source_address : ℕ → Message
  dropping going_out hello : Message

-- The globals of packet_block_protocol.c, and what the modules have logged, the latest first.
pub record Globals : Type 0 where
  pub sock_buff : Option SkBuff
  pub icmp_header : Option ℕ
  pub ip_header : Option Iphdr
  pub log : List Message

-- `none` is a crash, for a buffer that is NULL.
abbrev pub Hook : Type 0
Hook = Option SkBuff → Globals → Option (Globals × Verdict)

-- `struct nf_hook_ops` at its address. A priority is counted from `NF_IP_PRI_FIRST`.
pub record Ops : Type 0 where
  pub address : ℕ
  pub hook : Hook
  pub pf : ℕ
  pub hooknum : ℕ
  pub priority : ℕ

abbrev pub pf_inet : ℕ
pf_inet = 2

abbrev pub nf_ip_pri_first : ℕ
nf_ip_pri_first = 0

-- A chain is in the order of the priorities, and what comes later is behind what has the same.
abbrev pub insert : Ops → List Ops → List Ops
insert o [] = o ∷ []
insert o (x ∷ xs) = if ltb o.priority x.priority then o ∷ x ∷ xs else x ∷ insert o xs

abbrev pub without : ℕ → List Ops → List Ops
without a [] = []
without a (x ∷ xs) = if a == x.address then xs else x ∷ without a xs

abbrev pub registered : ℕ → List Ops → Bool
registered a [] = false
registered a (x ∷ xs) = (a == x.address) || registered a xs

abbrev pub hooked_at : Ops → ℕ → ℕ → Bool
hooked_at o pf hooknum = (pf == o.pf) && (hooknum == o.hooknum)

-- The tables of hooks by protocol family and hook number, with registering and unregistering.
pub record Netfilter : Type 1 where
  pub Table : Type 0
  pub hooks : Table → ℕ → ℕ → List Ops
  pub nf_register_hook : Ops → Table → Table
  pub nf_unregister_hook : Ops → Table → Table
  pub hooks-register :
      (o : Ops) (t : Table) (pf hooknum : ℕ)
      → hooks (nf_register_hook o t) pf hooknum
        ≡ (if hooked_at o pf hooknum then insert o (hooks t pf hooknum) else hooks t pf hooknum)
  pub hooks-unregister :
      (o : Ops) (t : Table) (pf hooknum : ℕ)
      → hooks (nf_unregister_hook o t) pf hooknum ≡ (
          if hooked_at o pf hooknum
          then without o.address (hooks t pf hooknum)
          else hooks t pf hooknum)

-- A packet goes along a chain until a hook drops it.
abbrev pub and_further :
    Option (Globals × Verdict) → Hook → Option SkBuff → Option (Globals × Verdict)
and_further none k skb = none
and_further (some (g, drop)) k skb = some (g, drop)
and_further (some (g, accept)) k skb = k skb g

abbrev pub along : List Ops → Hook
along [] skb g = some (g, accept)
along (o ∷ os) skb g = and_further (o.hook skb g) (along os) skb
