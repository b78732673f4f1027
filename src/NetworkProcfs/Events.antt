-- ===== src/NetworkProcfs/Events.antt =====
-- The life of network_procfs.c between `insmod` and `rmmod`: packets, readers and writers in any
-- order.
use mathlib.Core.Path.{subst}
use kernel_modules_playgroun.Prelude.{
  ℕ, ◌+◌, ◌<◌, ◌≤◌, ◌≡◌, ◌≢◌, refl, ◌∙◌, Bool, true, false, Bool-cases, inl, inr, Option, none,
  some, List, [], ◌∷◌, if◌then◌else◌, length, arith, u32, u64, sign_extend,
}
use kernel_modules_playgroun.Prelude.Bytes.{Text, same_text, same_text_iff}
use kernel_modules_playgroun.NetworkProcfs.Machine.{
  Ptr, null, Entry, Net, Cmd, pure, ◌>>◌, done, fault, spinning, out_of_fuel, Run, Ends, Ends-bind,
  Block, SkBuff, Kernel, spin_lock,
}
use kernel_modules_playgroun.NetworkProcfs.Driver.{add_to_list_network, hook_func, my_write}
use kernel_modules_playgroun.NetworkProcfs.Linked.{Chain, IsNet}
use kernel_modules_playgroun.NetworkProcfs.Adding.{account}
use kernel_modules_playgroun.NetworkProcfs.Accounting.{
  view, account_self, account-ne, account_again, length-account,
}
use kernel_modules_playgroun.NetworkProcfs.Traffic.{Packet, source_of, size_of, hook_func-account}
use kernel_modules_playgroun.NetworkProcfs.Loading.{root_entry}
use kernel_modules_playgroun.NetworkProcfs.Reading.{
  print, cleared, print_lem, my_write-cleared, length-cleared, view-cleared,
}

Ends-done :
    (P : Unit {0} → Net → Type 0) (r : Run (Unit {0})) → Ends P r → (v : Net) × (r ≡ done tt v)
Ends-done P (done a v) ends = (v, refl)
Ends-done P fault ends = absurd ends
Ends-done P spinning ends = absurd ends
Ends-done P out_of_fuel ends = absurd ends

-- A packet comes in, a process reads /proc/net_proc, or writes so many bytes to it.
pub data Event : Type 0 where
  received : Packet → Event
  shown : Event
  written : ℕ → Event

module _ (kernel : Kernel) where
  abbrev source : SkBuff → Text
  source = source_of kernel

  abbrev size : SkBuff → ℕ
  size = size_of kernel

  -- What the module does on an event.
  unfoldable pub handle : ℕ → Event → Cmd (Unit {0})
  handle fuel (received (b, p)) = do
    hook_func kernel.skb_network_header kernel.pi4 fuel b (some p)
    pure tt
  handle fuel shown = do print fuel; pure tt
  handle fuel (written len) = do my_write fuel len; pure tt

  -- The slab allocator has an object for the packet that is not in use.
  abbrev pub Allowed : Net → Event → Type 0
  Allowed s (received (b, _)) = (b.address ≢ null) × (s.cells b.address ≡ none)
  Allowed s shown = Unit {0}
  Allowed s (written _) = Unit {0}

  -- The events `es`, the latest first, take the module from `s` to another state.
  pub data Reaches (s : Net) : List Event → Net → Type 0 where
    start : Reaches s [] s
    next :
        {es : List Event} {t u : Net} (e : Event) (fuel : ℕ)
        → Reaches s es t
        → Allowed t e
        → length es + 1 < fuel
        → handle fuel e t ≡ done tt u
        → Reaches s (e ∷ es) u

  -- Whether a source has been seen, and its packets and bytes since the last write.
  abbrev pub known : Text → List Event → Bool
  known t [] = false
  known t (received (_, p) ∷ es) = if same_text (source p) t then true else known t es
  known t (shown ∷ es) = known t es
  known t (written _ ∷ es) = known t es

  abbrev pub packets_since : Text → List Event → ℕ
  packets_since t [] = 0
  packets_since t (received (_, p) ∷ es) =
      if same_text (source p) t then packets_since t es + 1 else packets_since t es
  packets_since t (shown ∷ es) = packets_since t es
  packets_since t (written _ ∷ es) = 0

  abbrev pub bytes_since : Text → List Event → ℕ
  bytes_since t [] = 0
  bytes_since t (received (_, p) ∷ es) =
      if same_text (source p) t then bytes_since t es + sign_extend (size p) else bytes_since t es
  bytes_since t (shown ∷ es) = bytes_since t es
  bytes_since t (written _ ∷ es) = 0

  -- The entry of a source that these events ask for.
  abbrev pub expected : Text → List Event → Option Entry
  expected t es =
      if known t es
      then some (record {
        addr = t;
        count = u32 (packets_since t es);
        data_used = u64 (bytes_since t es);
      })
      else none

  -- The list is well-formed, and has for every source just the entry that the events ask for.
  abbrev pub Consistent : List Event → Net → Type 0
  Consistent es s =
      (xs : Chain) × IsNet s xs
      × (length xs ≤ length es + 1)
      × ((t : Text) → t ≢ [] → view t xs ≡ expected t es)

  unknown_lem :
      (t : Text) (es : List Event)
      → known t es ≡ false
      → (packets_since t es ≡ 0) × (bytes_since t es ≡ 0)
  unknown_lem t [] u = (refl, refl)
  unknown_lem t (received (b, p) ∷ es) u = ground (arith, unknown_lem t es)
  unknown_lem t (shown ∷ es) u = unknown_lem t es u
  unknown_lem t (written _ ∷ es) u = (refl, refl)

  account-expected :
      (b : Block) (p : SkBuff) (es : List Event) (xs : Chain) (t : Text)
      → t ≢ []
      → view t xs ≡ expected t es
      → view t (account b.address (source p) (size p) xs) ≡ expected t (received (b, p) ∷ es)
  account-expected b p es xs t ne before = elim (Bool-cases (same_text (source p) t)) [
    | inl same ↦
        let e = (same_text_iff (source p) t).0 same in
        elim (Bool-cases (known t es)) [
          | inl seen ↦
              rw (same, e)
                (account_again b.address t (size p) (packets_since t es) (bytes_since t es) xs
                  (before ∙ rw seen refl))
          | inr unseen ↦
              let (packets, bytes) = unknown_lem t es unseen in
              rw (same, e, packets, bytes)
                (account_self b.address t (size p) 0 0 xs (omega arith) (λ _. refl)
                    (before ∙ rw unseen refl)
                  ∙ ground arith)
        ]
    | inr other ↦ rw other (
        account-ne b.address (source p) t (size p) xs
          (λ e. cc (other, (same_text_iff (source p) t).1 e))
        ∙ before)
  ]

  handle-Consistent :
      (e : Event) (es : List Event) (s : Net) (fuel : ℕ)
      → Consistent es s
      → Allowed s e
      → length es + 1 < fuel
      → Ends (λ _. Consistent (e ∷ es)) (handle fuel e s)
  unfolding handle
  handle-Consistent (received (b, p)) es s fuel (xs, is, short, tells) allowed enough =
      Ends-bind _ _ (hook_func kernel.skb_network_header kernel.pi4 fuel b (some p) s) _
        (hook_func-account kernel fuel b p s xs is (omega arith) allowed.0 allowed.1)
        λ _ s' k. (
          account b.address (source p) (size p) xs,
          k.1.0,
          omega (arith, length-account b.address (source p) (size p) xs),
          λ t ne. account-expected b p es xs t ne (tells t ne),
        )
  handle-Consistent shown es s fuel (xs, is, short, tells) allowed enough =
      simp (print_lem fuel s xs is (omega arith)) (xs, is, omega arith, tells)
  handle-Consistent (written len) es s fuel (xs, is, short, tells) allowed enough =
      Ends-bind _ _ (my_write fuel len s) _ (my_write-cleared fuel s xs is (omega arith) len)
        λ _ s' k. (
          cleared xs,
          k.0,
          omega (arith, length-cleared xs),
          λ t ne. ground (arith, tells t ne, view-cleared t xs),
        )

  start_lem : (s : Net) (p : Ptr) → IsNet s ((p, root_entry) ∷ []) → Consistent [] s
  start_lem s p is =
      ((p, root_entry) ∷ [], is, omega arith, λ t ne. ground (arith, same_text_iff [] t))

  -- From the state that `init_packet` leaves, let packets, reads and writes come in any order, the
  -- slab allocator have an unused object for each packet, and the fuel of each exceed the number of
  -- events before it plus one. In every state that they lead to, the list is well-formed and the
  -- lock is free; it has an entry for just the sources that were ever seen, with their packets and
  -- bytes since the last write, each wrapped to the width of its counter. The source with the empty
  -- text is left out.
  pub Reaches-Consistent :
      (s : Net) (p : Ptr) (es : List Event) (u : Net)
      → IsNet s ((p, root_entry) ∷ [])
      → Reaches s es u
      → Consistent es u
  Reaches-Consistent s p [] u is start = start_lem s p is
  Reaches-Consistent s p es u is (next {es = before} {t} e fuel r allowed enough ends) =
      subst (Ends (λ _. Consistent (e ∷ before))) ends
        (handle-Consistent e before t fuel (Reaches-Consistent s p before t is r) allowed enough)

  -- A packet that comes in while `net_lock` is held.
  handle-locked :
      (fuel : ℕ) (q : Packet) (s : Net) → s.locked ≡ true → handle fuel (received q) s ≡ spinning
  unfolding handle hook_func add_to_list_network spin_lock
  handle-locked fuel (b, p) s held = simp (kernel.reads p, held)

  -- Let events come one after the other, each when the one before has ended. In every state that
  -- they lead to, a further event is handled to its end, without a fault, a wait for the lock that
  -- never ends, or a lack of fuel, if the fuel exceeds the number of events so far plus one and the
  -- slab allocator has an unused object for a packet. The state behind it is such a state again. But
  -- a packet that comes in while the lock is held, as the softirq may that interrupts a write on its
  -- processor, spins.
  pub handle-Reaches :
      (s : Net) (p : Ptr) (es : List Event) (u : Net) (e : Event) (q : Packet) (fuel : ℕ)
      → IsNet s ((p, root_entry) ∷ [])
      → Reaches s es u
      → Allowed u e
      → length es + 1 < fuel
      → (v : Net) × (handle fuel e u ≡ done tt v)
        × Reaches s (e ∷ es) v
        × (handle fuel (received q) (record u { locked = true }) ≡ spinning)
  handle-Reaches s p es u e q fuel is r allowed enough =
      let now = Reaches-Consistent s p es u is r in
      let (v, ends) =
        Ends-done _ (handle fuel e u) (handle-Consistent e es u fuel now allowed enough) in
      (
        v,
        ends,
        next e fuel r allowed enough ends,
        handle-locked fuel q (record u { locked = true }) refl,
      )
