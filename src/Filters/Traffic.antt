-- ===== src/Filters/Traffic.antt =====
-- What becomes of packets while the packet filters are loaded.
use kernel_modules_playgroun.Prelude.{
  ℕ, true, Bool-cases, ◌==◌, if◌then◌else◌, ◌≡◌, refl, ap, ◌∙◌, inl, inr, Option, none, some, List,
  [], ◌∷◌, ◌++◌, map, list_laws, Bool,
}
use kernel_modules_playgroun.Filters.Netfilter.{
  Verdict, drop, accept, SkBuff, Message, Globals, source_address, dropping, going_out, hello, Ops,
  pf_inet, Netfilter, along,
}
use kernel_modules_playgroun.Filters.Driver.{
  block_ops, my_ops, out_ops, block_hook, out_hook, my_hook, init_packet, init_module,
  init_filter_if, hello_init,
}
use kernel_modules_playgroun.Filters.Loading.{all_later, insert_first}

-- What the hook of packet_block_protocol.c leaves in the globals.
abbrev pub seen : SkBuff → Globals → Globals
seen skb g = record g { sock_buff = some skb; ip_header = some skb.network_header }

abbrev pub dropped : SkBuff → Globals → Globals
dropped skb g = record (seen skb g) {
  icmp_header = some skb.transport_header;
  log = dropping ∷ source_address skb.network_header.saddr ∷ g.log;
}

-- With packet_block_protocol.c loaded above hooks of later priorities, an ICMP packet for this
-- machine is dropped and its source logged, and no other hook sees it; any other packet goes on to
-- the hooks that were there, with nothing logged.
pub init_packet-along :
    (netfilter : Netfilter) (nfho : ℕ) (t : netfilter.Table) (skb : SkBuff) (g : Globals)
    → all_later (netfilter.hooks t pf_inet 1) ≡ true
    → along (netfilter.hooks (init_packet netfilter nfho t).0 pf_inet 1) (some skb) g ≡ (
        if skb.network_header.protocol == 1
        then some (dropped skb g, drop)
        else along (netfilter.hooks t pf_inet 1) (some skb) (seen skb g))
unfolding init_packet block_hook
init_packet-along netfilter nfho t skb g later =
    let os = netfilter.hooks t pf_inet 1 in
    ap (λ xs. along xs (some skb) g)
      (netfilter.hooks-register (block_ops nfho) t pf_inet 1
        ∙ insert_first (block_ops nfho) os refl later)
    ∙ elim (Bool-cases (skb.network_header.protocol == 1)) [
      | inl icmp ↦ rw icmp refl
      | inr other ↦ rw other refl
    ]

-- Packets one after the other along a chain.
abbrev after_verdict : Verdict → Option (Globals × List Verdict) → Option (Globals × List Verdict)
after_verdict v none = none
after_verdict v (some (g, vs)) = some (g, v ∷ vs)

abbrev pub then_all :
    Option (Globals × Verdict)
    → (Globals → Option (Globals × List Verdict))
    → Option (Globals × List Verdict)
then_all none k = none
then_all (some (g, v)) k = after_verdict v (k g)

abbrev pub traffic : List Ops → List SkBuff → Globals → Option (Globals × List Verdict)
traffic os [] g = some (g, [])
traffic os (skb ∷ ps) g = then_all (along os (some skb) g) (λ h. traffic os ps h)

-- The three modules, loaded one after the other.
abbrev pub all_loaded : (netfilter : Netfilter) → ℕ → ℕ → ℕ → netfilter.Table → netfilter.Table
all_loaded netfilter a b c t =
    (hello_init netfilter c (init_module netfilter b (init_packet netfilter a t).0).0).0

-- The chains that a packet passes on its way in and on its way out.
abbrev pub way_in : (netfilter : Netfilter) → netfilter.Table → List Ops
way_in netfilter t = netfilter.hooks t pf_inet 0 ++ netfilter.hooks t pf_inet 1

abbrev pub way_out : (netfilter : Netfilter) → netfilter.Table → List Ops
way_out netfilter t = netfilter.hooks t pf_inet 3 ++ netfilter.hooks t pf_inet 4

abbrev is_icmp : SkBuff → Bool
is_icmp skb = skb.network_header.protocol == 1

-- What is decided and logged for packets on their way in, from the packets alone.
abbrev pub decided : SkBuff → Verdict
decided skb = if is_icmp skb then drop else accept

abbrev pub logged : SkBuff → List Message
logged skb =
    if is_icmp skb
    then dropping ∷ source_address skb.network_header.saddr ∷ hello ∷ []
    else hello ∷ []

abbrev pub all_logged : (SkBuff → List Message) → List SkBuff → List Message
all_logged f [] = []
all_logged f (skb ∷ ps) = all_logged f ps ++ f skb

-- The result of a run whose log and verdicts are these.
abbrev pub Passes : List Message → List Verdict → Option (Globals × List Verdict) → Type 0
Passes log vs r = (g : Globals) × (r ≡ some (g, vs)) × (g.log ≡ log)

Passes-then :
    (h : Globals) (v : Verdict) (run : Globals → Option (Globals × List Verdict))
    (before : List Message) (new log : List Message) (vs : List Verdict)
    → h.log ≡ new ++ log
    → Passes (before ++ h.log) vs (run h)
    → Passes ((before ++ new) ++ log) (v ∷ vs) (then_all (some (h, v)) run)
Passes-then h v run before new log vs here (k, e, l) =
    (k, ap (after_verdict v) e, l ∙ simp (here, list_laws))

-- The chain of the two modules on the way in.
traffic-in :
    (c a : ℕ) (ps : List SkBuff) (g : Globals)
    → Passes
        (all_logged logged ps ++ g.log)
        (map decided ps)
        (traffic (my_ops c ∷ block_ops a ∷ []) ps g)
unfolding my_hook block_hook
traffic-in c a [] g = (g, refl, refl)
traffic-in c a (skb ∷ ps) g =
    let run = traffic (my_ops c ∷ block_ops a ∷ []) ps in
    let step = λ (h : Globals) (v : Verdict) (new : List Message) (here : h.log ≡ new ++ g.log).
      Passes-then h v run (all_logged logged ps) new g.log (map decided ps) here
        (traffic-in c a ps h) in
    let greeted = record g { log = hello ∷ g.log } in
    elim (Bool-cases (is_icmp skb)) [
      | inl icmp ↦ rw icmp (
          step (dropped skb greeted) drop
            (dropping ∷ source_address skb.network_header.saddr ∷ hello ∷ []) refl)
      | inr other ↦ rw other (step (seen skb greeted) accept (hello ∷ []) refl)
    ]

traffic-out :
    (b : ℕ) (ps : List SkBuff) (g : Globals)
    → Passes
        (all_logged (λ _. going_out ∷ []) ps ++ g.log)
        (map (λ _. accept) ps)
        (traffic (out_ops b ∷ []) ps g)
unfolding out_hook
traffic-out b [] g = (g, refl, refl)
traffic-out b (skb ∷ ps) g =
    let h = record g { log = going_out ∷ g.log } in
    let run = traffic (out_ops b ∷ []) ps in
    Passes-then h accept run (all_logged (λ _. going_out ∷ []) ps) (going_out ∷ []) g.log
      (map (λ _. accept) ps) refl (traffic-out b ps h)

-- With all three modules loaded where no hook was before, whatever packets come: on the way in just
-- the ICMP packets are dropped, each is greeted, and a dropped one's source is logged behind that;
-- on the way out all are accepted and logged.
pub all_loaded-traffic :
    (netfilter : Netfilter) (a b c : ℕ) (t : netfilter.Table) (ps : List SkBuff) (g : Globals)
    → ((hooknum : ℕ) → netfilter.hooks t pf_inet hooknum ≡ [])
    → let u = all_loaded netfilter a b c t in
      Passes (all_logged logged ps ++ g.log) (map decided ps) (traffic (way_in netfilter u) ps g)
      × Passes
          (all_logged (λ _. going_out ∷ []) ps ++ g.log)
          (map (λ _. accept) ps)
          (traffic (way_out netfilter u) ps g)
unfolding init_packet init_module init_filter_if hello_init
all_loaded-traffic netfilter a b c t ps g empty =
    let x = netfilter.nf_register_hook (block_ops a) t in
    let y = netfilter.nf_register_hook (out_ops b) x in
    let into = λ (n : ℕ). netfilter.hooks-register (my_ops c) y pf_inet n in
    let over = λ (n : ℕ). netfilter.hooks-register (out_ops b) x pf_inet n in
    let under = λ (n : ℕ). netfilter.hooks-register (block_ops a) t pf_inet n in
    (
      rw (into 0, over 0, under 0, empty 0, into 1, over 1, under 1, empty 1) (traffic-in c a ps g),
      rw (into 3, over 3, under 3, empty 3, into 4, over 4, under 4, empty 4) (traffic-out b ps g),
    )
