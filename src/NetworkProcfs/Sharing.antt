-- ===== src/NetworkProcfs/Sharing.antt =====
-- What the list of network_procfs.c holds when two processors are in `hook_func` at once.
use kernel_modules_playgroun.Prelude.{
  ℕ, ◌+◌, ◌≡◌, refl, ap, true, false, ◌⊎◌, inl, inr, Option, none, some, List, [], ◌∷◌, ◌++◌,
  length, length-append, arith,
}
use kernel_modules_playgroun.Prelude.Bytes.{Text}
use kernel_modules_playgroun.NetworkProcfs.Machine.{SkBuff, Kernel}
use kernel_modules_playgroun.NetworkProcfs.Traffic.{source_of, size_of}
use kernel_modules_playgroun.NetworkProcfs.Processors.{
  Buffer, Globals, Pc, idle, stored, looked, printed, System, Move, enter, look, look_stale, print,
  print_stale, account, account_stale, Reaches, start, on_first, on_second,
}

-- `x` is what `f` says of one of the packets.
module _ {B : Type 0} (f : SkBuff → B) where
  abbrev pub Among : B → List SkBuff → Type 0
  Among x [] = ⊥
  Among x (p ∷ ps) = (f p ≡ x) ⊎ Among x ps

  Among-append : (x : B) (new ps : List SkBuff) → Among x ps → Among x (new ++ ps)
  Among-append x [] ps m = m
  Among-append x (p ∷ new) ps m = inr (Among-append x new ps m)

-- Whether a processor is in the function.
abbrev pub inside : Pc → ℕ
inside idle = 0
inside _ = 1

module _ (kernel : Kernel) where
  open kernel use {header_of, pi4}

  -- What the globals, the processors and the list hold comes from packets taken in.
  abbrev KnownBuff : Option Buffer → List SkBuff → Type 0
  KnownBuff none ps = Unit {0}
  KnownBuff (some b) ps = Among (λ q. q) b.packet ps

  abbrev KnownPc : Pc → List SkBuff → Type 0
  KnownPc (printed mine t) ps = Among (source_of kernel) t ps
  KnownPc _ ps = Unit {0}

  abbrev pub KnownAll : List (Text × ℕ) → List SkBuff → Type 0
  KnownAll [] ps = Unit {0}
  KnownAll ((t, d) ∷ es) ps =
      Among (source_of kernel) t ps × Among (size_of kernel) d ps × KnownAll es ps

  abbrev KnownGlobals : Globals → List SkBuff → Type 0
  KnownGlobals s ps = KnownBuff s.sock_buff ps × KnownBuff s.ip_header ps × KnownAll s.accounted ps

  KnownBuff-append :
      (o : Option Buffer) (new ps : List SkBuff) → KnownBuff o ps → KnownBuff o (new ++ ps)
  KnownBuff-append none new ps k = tt
  KnownBuff-append (some b) new ps k = Among-append (λ q. q) b.packet new ps k

  KnownPc-append : (c : Pc) (new ps : List SkBuff) → KnownPc c ps → KnownPc c (new ++ ps)
  KnownPc-append idle new ps k = tt
  KnownPc-append (stored mine) new ps k = tt
  KnownPc-append (looked mine) new ps k = tt
  KnownPc-append (printed mine t) new ps k = Among-append (source_of kernel) t new ps k

  KnownAll-append :
      (es : List (Text × ℕ)) (new ps : List SkBuff) → KnownAll es ps → KnownAll es (new ++ ps)
  KnownAll-append [] new ps k = tt
  KnownAll-append ((t, d) ∷ es) new ps (a, b, k) = (
    Among-append (source_of kernel) t new ps a,
    Among-append (size_of kernel) d new ps b,
    KnownAll-append es new ps k,
  )

  -- What is known of a buffer passes on to what is read from it.
  Among-of :
      {B : Type 0} (f : SkBuff → B) (p : SkBuff) (ps : List SkBuff)
      → Among (λ q. q) p ps
      → Among f (f p) ps
  Among-of f p [] m = absurd m
  Among-of f p (q ∷ ps) (inl e) = inl (ap f e)
  Among-of f p (q ∷ ps) (inr m) = inr (Among-of f p ps m)

  Move-Known :
      (s m : Globals) (o p c : Pc) (new ps : List SkBuff)
      → Move kernel s o p new m c
      → m.stale ≡ false
      → KnownGlobals s ps
      → KnownPc p ps
      → KnownGlobals m (new ++ ps) × KnownPc c (new ++ ps)
  Move-Known s m o p c new ps (enter q) fresh (b, h, a) k = (
    (
      inl refl,
      KnownBuff-append s.ip_header (q ∷ []) ps h,
      KnownAll-append s.accounted (q ∷ []) ps a,
    ),
    tt,
  )
  Move-Known s m o p c new ps (look mine q e live) fresh (b, h, a) k = ((b, rw e at b, a), tt)
  Move-Known s m o p c new ps (look_stale mine q any e gone) fresh (b, h, a) k =
      absurd (ground arith)
  Move-Known s m o p c new ps (print mine q e live) fresh (b, h, a) k =
      ((b, h, a), Among-of (source_of kernel) q.packet ps (rw e at h))
  Move-Known s m o p c new ps (print_stale mine q any e gone) fresh (b, h, a) k =
      absurd (ground arith)
  Move-Known s m o p c new ps (account mine t q e live) fresh (b, h, a) k =
      ((b, h, (k, Among-of (size_of kernel) q.packet ps (rw e at b), a)), tt)
  Move-Known s m o p c new ps (account_stale mine t q any e gone) fresh (b, h, a) k =
      absurd (ground arith)

  -- A stale read is never forgotten.
  Move-stale :
      (s m : Globals) (o p c : Pc) (new : List SkBuff)
      → Move kernel s o p new m c
      → m.stale ≡ false
      → s.stale ≡ false
  Move-stale s m o p c new (enter q) fresh = fresh
  Move-stale s m o p c new (look mine q e live) fresh = fresh
  Move-stale s m o p c new (look_stale mine q any e gone) fresh = absurd (ground arith)
  Move-stale s m o p c new (print mine q e live) fresh = fresh
  Move-stale s m o p c new (print_stale mine q any e gone) fresh = absurd (ground arith)
  Move-stale s m o p c new (account mine t q e live) fresh = fresh
  Move-stale s m o p c new (account_stale mine t q any e gone) fresh = absurd (ground arith)

  abbrev KnownSystem : System → List SkBuff → Type 0
  KnownSystem s ps = KnownGlobals s.globals ps × KnownPc s.first ps × KnownPc s.second ps

  Move-inside :
      (s m : Globals) (o p c : Pc) (new : List SkBuff)
      → Move kernel s o p new m c
      → length m.accounted + inside c ≡ length s.accounted + inside p + length new
  Move-inside s m o p c new (enter q) = omega arith
  Move-inside s m o p c new (look mine q e live) = omega arith
  Move-inside s m o p c new (look_stale mine q any e gone) = omega arith
  Move-inside s m o p c new (print mine q e live) = omega arith
  Move-inside s m o p c new (print_stale mine q any e gone) = omega arith
  Move-inside s m o p c new (account mine t q e live) = omega arith
  Move-inside s m o p c new (account_stale mine t q any e gone) = omega arith

  Reaches-Known :
      (taken : List SkBuff) (s : System)
      → Reaches kernel taken s
      → s.globals.stale ≡ false
      → KnownSystem s taken
  Reaches-Known taken s start fresh = ((tt, tt, tt), tt, tt)
  Reaches-Known taken t (on_first {taken = old} {new} {s} {m} {c} r move) fresh =
      let (g, f, d) =
        Reaches-Known old s r (Move-stale s.globals m s.second s.first c new move fresh) in
      let (g', f') = Move-Known s.globals m s.second s.first c new old move fresh g f in
      (g', f', KnownPc-append s.second new old d)
  Reaches-Known taken t (on_second {taken = old} {new} {s} {m} {c} r move) fresh =
      let (g, f, d) =
        Reaches-Known old s r (Move-stale s.globals m s.first s.second c new move fresh) in
      let (g', d') = Move-Known s.globals m s.first s.second c new old move fresh g d in
      (g', KnownPc-append s.first new old f, d')

-- Whatever the interleaving of two processors, and whatever is read: the list has been given as many
-- entries as packets have been taken in, less the processors that are still inside.
pub Reaches-counted :
    (kernel : Kernel) (taken : List SkBuff) (s : System)
    → Reaches kernel taken s
    → length s.globals.accounted + inside s.first + inside s.second ≡ length taken
Reaches-counted kernel taken s start = refl
Reaches-counted kernel taken t (on_first {taken = old} {new} {s} {m} {c} r move) =
    let n = Reaches-counted kernel old s r in
    let more = Move-inside kernel s.globals m s.second s.first c new move in
    omega (arith, n, more, length-append new old)
Reaches-counted kernel taken t (on_second {taken = old} {new} {s} {m} {c} r move) =
    let n = Reaches-counted kernel old s r in
    let more = Move-inside kernel s.globals m s.first s.second c new move in
    omega (arith, n, more, length-append new old)

-- For every interleaving of two processors in which no buffer is read behind the return of its call:
-- each entry that is given to the list has the source of a packet that was taken in and the size of
-- one, though not always of the same, and there are as many entries as packets less the processors
-- that are still inside.
pub Reaches-accounted :
    (kernel : Kernel) (taken : List SkBuff) (s : System)
    → Reaches kernel taken s
    → s.globals.stale ≡ false
    → KnownAll kernel s.globals.accounted taken
      × (length s.globals.accounted + inside s.first + inside s.second ≡ length taken)
Reaches-accounted kernel taken s r fresh =
    let ((b, h, a), f, d) = Reaches-Known kernel taken s r fresh in
    (a, Reaches-counted kernel taken s r)

-- Of any two packets the one can be lost: with a processor for each, there is an interleaving behind
-- which both are done and the list has been given the source and the size of the second one twice,
-- though no buffer has been read behind the return of its call.
pub Reaches-lost :
    (kernel : Kernel) (p q : SkBuff)
    → (s : System) × Reaches kernel (q ∷ p ∷ []) s
      × (s.first ≡ idle)
      × (s.second ≡ idle)
      × (s.globals.accounted
          ≡ (source_of kernel q, size_of kernel q) ∷ (source_of kernel q, size_of kernel q) ∷ [])
      × (s.globals.stale ≡ false)
Reaches-lost kernel p q =
    let b : Buffer = record { index = 1; packet = q } in
    let both_in = on_second (on_first start (enter p)) (enter q) in
    let both_looked = on_first (on_second both_in (look 1 b refl refl)) (look 0 b refl refl) in
    let both_printed =
      on_first (on_second both_looked (print 1 b refl refl)) (print 0 b refl refl) in
    let source = source_of kernel q in
    (
      record {
        globals = record {
          sock_buff = some b;
          ip_header = some b;
          accounted = (source, size_of kernel q) ∷ (source, size_of kernel q) ∷ [];
          count = 2;
          stale = false;
        };
        first = idle;
        second = idle;
      },
      on_second (on_first both_printed (account 0 source b refl refl))
          (account 1 source b refl refl),
      refl,
      refl,
      refl,
      refl,
    )

-- With a processor for each of two packets, there is an interleaving behind which both are done and
-- the list has been given, beside the second packet, whatever stood in memory where the second one's
-- buffer was.
pub Reaches-stale :
    (kernel : Kernel) (p q : SkBuff) (any : Text) (size : ℕ)
    → (s : System) × Reaches kernel (q ∷ p ∷ []) s
      × (s.first ≡ idle)
      × (s.second ≡ idle)
      × (s.globals.accounted ≡ (any, size) ∷ (source_of kernel q, size_of kernel q) ∷ [])
Reaches-stale kernel p q any size =
    let b : Buffer = record { index = 1; packet = q } in
    let both_in = on_second (on_first start (enter p)) (enter q) in
    let printed_second = on_second (on_second both_in (look 1 b refl refl)) (print 1 b refl refl) in
    let gone = on_second printed_second (account 1 (source_of kernel q) b refl refl) in
    let printed_first =
      on_first (on_first gone (look_stale 0 b b refl refl)) (print_stale 0 b any refl refl) in
    (
      record {
        globals = record {
          sock_buff = some b;
          ip_header = some b;
          accounted = (any, size) ∷ (source_of kernel q, size_of kernel q) ∷ [];
          count = 2;
          stale = true;
        };
        first = idle;
        second = idle;
      },
      on_first printed_first (account_stale 0 any b size refl refl),
      refl,
      refl,
      refl,
    )
