-- ===== src/NetworkProcfs/Order.antt =====
-- The traffic that network_procfs.c accounts, as a bag of packets: the order of their arrival, and
-- the objects that the slab cache gives for them, are forgotten.
use mathlib.Core.List.{Permᴰ}
use mathlib.Core.Quot
use mathlib.Core.Quot.{Quot}
use native.Mathlib.Nat.{ℕ_set}
use kernel_modules_playgroun.Prelude.{
  ℕ, ◌+◌, ◌<◌, ◌≡◌, ◌≢◌, refl, ap, ap₂, ◌∙◌, true, List, [], ◌∷◌, length, map, Option,
  if◌then◌else◌, arith, sign_extend,
}
use kernel_modules_playgroun.Prelude.Bytes.{Text, same_text}
use kernel_modules_playgroun.NetworkProcfs.Machine.{
  null, Entry, Net, Ends, Ends-mono, SkBuff, Kernel, ◌>>◌,
}
use kernel_modules_playgroun.NetworkProcfs.Driver.{Answers, init_packet}
use kernel_modules_playgroun.NetworkProcfs.Linked.{Chain, IsNet}
use kernel_modules_playgroun.NetworkProcfs.Accounting.{view, tally}
use kernel_modules_playgroun.NetworkProcfs.Traffic.{
  Packet, Later, Supplied, source_of, size_of, packets_from, bytes_from, traffic,
}
use kernel_modules_playgroun.NetworkProcfs.Loading.{IsUnloaded, loaded_traffic-Tells}

abbrev pub Bag : Type 0
Bag = Quot (Permᴰ {A = SkBuff})

abbrev pub buffer : Packet → SkBuff
buffer (b, p) = p

-- The bag of a sequence of packets.
abbrev pub bag_of : List Packet → Bag
bag_of ps = Quot.mk (map buffer ps)

module _ (kernel : Kernel) (t : Text) where
  abbrev pub one : SkBuff → ℕ
  one p = if same_text (source_of kernel p) t then 1 else 0

  abbrev pub size : SkBuff → ℕ
  size p = if same_text (source_of kernel p) t then sign_extend (size_of kernel p) else 0

abbrev pub sum_of : (SkBuff → ℕ) → List SkBuff → ℕ
sum_of f [] = 0
sum_of f (p ∷ ps) = f p + sum_of f ps

pub sum_of-Permᴰ : (f : SkBuff → ℕ) (ps qs : List SkBuff) → Permᴰ ps qs → sum_of f ps ≡ sum_of f qs
sum_of-Permᴰ f ps qs Permᴰ.nil = refl
sum_of-Permᴰ f ps qs (Permᴰ.cons {l₁ = l} {l₂ = m} e d) =
    ap₂ (λ a b. a + b) (ap f e) (sum_of-Permᴰ f l m d)
sum_of-Permᴰ f ps qs (Permᴰ.swap e d) = omega (arith, ap f e, ap f d)
sum_of-Permᴰ f ps qs (Permᴰ.trans {l₂ = m} d e) = sum_of-Permᴰ f ps m d ∙ sum_of-Permᴰ f m qs e

-- A sum over the packets of a bag.
abbrev sum_in : (SkBuff → ℕ) → Bag → ℕ
sum_in f = Quot.lift ℕ_set (sum_of f) (sum_of-Permᴰ f)

packets_from-sum :
    (kernel : Kernel) (t : Text) (ps : List Packet)
    → packets_from kernel t ps ≡ sum_of (one kernel t) (map buffer ps)
packets_from-sum kernel t [] = refl
packets_from-sum kernel t ((b, p) ∷ ps) = ground (arith, packets_from-sum kernel t ps)

bytes_from-sum :
    (kernel : Kernel) (t : Text) (ps : List Packet)
    → bytes_from kernel t ps ≡ sum_of (size kernel t) (map buffer ps)
bytes_from-sum kernel t [] = refl
bytes_from-sum kernel t ((b, p) ∷ ps) = ground (arith, bytes_from-sum kernel t ps)

-- What a bag of packets asks for as the entry of a source.
abbrev pub told : Kernel → Bag → Text → Option Entry
told kernel bag t = tally t (sum_in (one kernel t) bag) (sum_in (size kernel t) bag)

-- What `init_packet` and a sequence of packets leave depends on the bag of the packets alone: under
-- the conditions that the allocations are granted in an unloaded state, that the slab allocator has
-- a new object for each packet, and that the fuel is above the number of packets plus one, the run
-- ends with a well-formed list whose entry for each source, but that with the empty text, is the one
-- that the bag asks for, in whatever order its packets came.
pub loaded_traffic-bag :
    (kernel : Kernel) (a : Answers) (s : Net) (fuel : ℕ) (ps : List Packet) (bag : Bag)
    → bag_of ps ≡ bag
    → IsUnloaded s
    → a.cache_created ≡ true
    → a.root_block.address ≢ null
    → Supplied s ps
    → Later a.root_block.address ps
    → length ps + 1 < fuel
    → Ends
        (λ _ s'. (ys : Chain) × IsNet s' ys × ((t : Text) → t ≢ [] → view t ys ≡ told kernel bag t))
        ((do init_packet a; traffic kernel fuel ps) s)
loaded_traffic-bag kernel a s fuel ps bag same unloaded created nonzero sup later enough =
    Ends-mono _ _ ((do init_packet a; traffic kernel fuel ps) s)
      (loaded_traffic-Tells kernel a s fuel ps unloaded created nonzero sup later enough)
      (λ _ s' (ys, is, tells). (
        ys,
        is,
        λ t ne.
            tells t ne
            ∙ ap₂ (tally t) (packets_from-sum kernel t ps) (bytes_from-sum kernel t ps)
            ∙ ap (λ b. told kernel b t) same,
      ))
