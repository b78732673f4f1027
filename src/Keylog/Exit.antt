-- ===== src/Keylog/Exit.antt =====
-- When `rmmod` of keyboard_interrupt_misc_device.c sleeps.
use kernel_modules_playgroun.Prelude.{
  ℕ, suc, ◌+◌, ◌*◌, ◌<◌, ◌≡◌, ◌≢◌, ◌↔◌, ◌⊎◌, inl, inr, refl, ap, ◌∙◌, Option, none, some, zero,
  Bool-cases, Bool, true, false, not, ◌==◌, List, [], ◌∷◌, arith, u32,
}
use kernel_modules_playgroun.Keylog.Driver.{
  Keylog, keylog_open, keylog_close, Exit, sleeps, leaves, keylog_driver_exit, pred,
}

-- What processes do with /dev/keylog: `open`, with the answer of `request_irq`, and `close`.
pub data Use : Type 0 where
  opened : Bool → Use
  closed : Use

unfoldable pub use_device : Use → Keylog → Keylog
use_device (opened granted) s = (keylog_open granted s).0
use_device closed s = (keylog_close s).0

unfoldable pub uses : List Use → Keylog → Keylog
uses [] s = s
uses (u ∷ us) s = uses us (use_device u s)

abbrev pub opens : List Use → ℕ
opens [] = 0
opens (opened granted ∷ us) = suc (opens us)
opens (closed ∷ us) = opens us

abbrev pub closes : List Use → ℕ
closes [] = 0
closes (opened granted ∷ us) = closes us
closes (closed ∷ us) = suc (closes us)

-- Whether the last `open` has a `close` behind it.
abbrev pub completed : List Use → Bool → Bool
completed [] done = done
completed (opened granted ∷ us) done = completed us false
completed (closed ∷ us) done = completed us true

registered_lem :
    (us : List Use) (s : Keylog)
    → s.intr_registered < 4294967296
    → (uses us s).intr_registered ≡ u32 (s.intr_registered + opens us + closes us * 4294967295)
unfolding uses use_device keylog_open keylog_close
registered_lem [] s small = omega arith
registered_lem (opened granted ∷ us) s small =
    registered_lem us (use_device (opened granted) s) (omega arith) ∙ omega arith
registered_lem (closed ∷ us) s small =
    registered_lem us (use_device closed s) (omega arith) ∙ omega arith

completions_lem :
    (us : List Use) (s : Keylog) (d : Bool)
    → not (s.completions == 0) ≡ d
    → not ((uses us s).completions == 0) ≡ completed us d
unfolding uses use_device keylog_open keylog_close
completions_lem [] s d e = e
completions_lem (opened granted ∷ us) s d e =
    completions_lem us (use_device (opened granted) s) false refl
completions_lem (closed ∷ us) s d e = completions_lem us (use_device closed s) true (ground arith)

-- From a freshly loaded module, and after any opens and closes, `rmmod` sleeps exactly if the opens
-- and the closes do not balance (modulo 2^32) and no close has come since the last open.
pub keylog_driver_exit-sleeps :
    (us : List Use) (s : Keylog)
    → s.intr_registered ≡ 0
    → s.completions ≡ 0
    → (keylog_driver_exit (uses us s) ≡ sleeps)
      ↔ ((u32 (opens us + closes us * 4294967295) ≢ 0) × (completed us false ≡ false))
unfolding keylog_driver_exit
keylog_driver_exit-sleeps us s none_open none_done =
    ground (arith, registered_lem us s, completions_lem us s false (rw none_done))

-- How many files are open behind `us`, with `n` open before; `none` if an open was not granted or a
-- close came without an open.
abbrev pub still_open : List Use → ℕ → Option ℕ
still_open [] n = some n
still_open (opened true ∷ us) n = still_open us (suc n)
still_open (opened false ∷ us) n = none
still_open (closed ∷ us) zero = none
still_open (closed ∷ us) (suc n) = still_open us n

-- The handlers are as many as the open files, and they are counted modulo 2^32.
uses-handlers :
    (us : List Use) (s : Keylog) (n k : ℕ)
    → s.handlers ≡ n
    → s.intr_registered ≡ u32 n
    → still_open us n ≡ some k
    → ((uses us s).handlers ≡ k) × ((uses us s).intr_registered ≡ u32 k)
unfolding uses use_device keylog_open keylog_close
uses-handlers [] s n k h i e = let same : n ≡ k = ground (arith, e) in (h ∙ same, i ∙ ap u32 same)
uses-handlers (opened true ∷ us) s n k h i e =
    uses-handlers us _ (suc n) k (omega arith) (omega arith) e
uses-handlers (opened false ∷ us) s n k h i e = absurd (ground arith)
uses-handlers (closed ∷ us) s zero k h i e = absurd (ground arith)
uses-handlers (closed ∷ us) s (suc n) k h i e = uses-handlers us _ n k (ap pred h) (omega arith) e

-- What `rmmod` leaves, with `k` files open.
abbrev pub Left : List Use → ℕ → Exit → Type 0
Left us k sleeps = (k ≢ 0) × (completed us false ≡ false)
Left us k (leaves t) =
    (t.handlers ≡ k) × (t.registered ≡ false) × ((k ≡ 0) ⊎ (completed us false ≡ true))

exit-Left :
    (us : List Use) (k : ℕ) (s : Keylog)
    → s.handlers ≡ k
    → s.intr_registered ≡ k
    → not (s.completions == 0) ≡ completed us false
    → Left us k (keylog_driver_exit s)
unfolding keylog_driver_exit
exit-Left us k s h i done = elim (Bool-cases (s.intr_registered == 0)) [
  | inl none_open ↦ rw none_open (h, refl, inl (ground (arith, i, none_open)))
  | inr some_open ↦ rw some_open (elim (Bool-cases (s.completions == 0)) [
    | inl none_done ↦ rw none_done (ground (arith, i, some_open), ground (arith, done, none_done))
    | inr some_done ↦ rw some_done (h, refl, inr (ground (arith, done, some_done)))
  ])
]

-- From a freshly loaded module, after opens that are granted and closes of open files, with fewer
-- than 2^32 files open at the end: `rmmod` sleeps if a file is open and no close has come since the
-- last open. Otherwise it leaves, with the device gone, and with the handler of each open file in
-- place.
pub keylog_driver_exit-Left :
    (us : List Use) (s : Keylog) (k : ℕ)
    → s.intr_registered ≡ 0
    → s.completions ≡ 0
    → s.handlers ≡ 0
    → still_open us 0 ≡ some k
    → k < 4294967296
    → Left us k (keylog_driver_exit (uses us s))
keylog_driver_exit-Left us s k none_open none_done no_handler valid few =
    let (handlers, count) = uses-handlers us s 0 k no_handler none_open valid in
    let done = completions_lem us s false (rw none_done) in
    exit-Left us k (uses us s) handlers (omega (arith, count)) done
