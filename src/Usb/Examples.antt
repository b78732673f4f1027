-- ===== src/Usb/Examples.antt =====
-- A USB core that takes the first entry that fits, and a run of usb_basic.c on it.
use mathlib.Core.Logic.Or
use mathlib.Core.List.{Mem, mem-cons, mem-cons_self, mem-cons_of_mem, not-mem-nil}
use kernel_modules_playgroun.Prelude.{
  ℕ, ◌≡◌, refl, sym, true, false, if◌then◌else◌, Bool-cases, inl, inr, Option, none, some, List, [],
  ◌∷◌, arith,
}
use kernel_modules_playgroun.Prelude.Bytes.{text}
use kernel_modules_playgroun.Usb.Core.{UsbDeviceId, fits, UsbCore, IsUsbCore}
use kernel_modules_playgroun.Usb.Driver.{pen_driver, Event, plugged, unplugged, Bus, run}
use kernel_modules_playgroun.Usb.Plugging.{messages, run-messages}

abbrev first_fit : List UsbDeviceId → ℕ → ℕ → Option UsbDeviceId
first_fit [] vendor product = none
first_fit (id ∷ ids) vendor product =
    let rest = first_fit ids vendor product in if fits vendor product id then some id else rest

first_fit-found :
    (entries : List UsbDeviceId) (vendor product : ℕ) (id : UsbDeviceId)
    → first_fit entries vendor product ≡ some id
    → Mem id entries × (fits vendor product id ≡ true)
first_fit-found [] vendor product id e = absurd (ground arith)
first_fit-found (x ∷ ids) vendor product id e = elim (Bool-cases (fits vendor product x)) [
  | inl fit ↦ let same : x ≡ id = ground (arith, fit, e) in rw (sym same) (mem-cons_self, fit)
  | inr unfit ↦
      let rest : first_fit ids vendor product ≡ some id = ground (arith, unfit, e) in
      let (listed, fit) = first_fit-found ids vendor product id rest in
      (mem-cons_of_mem x listed, fit)
]

first_fit-missed :
    (entries : List UsbDeviceId) (vendor product : ℕ) (id : UsbDeviceId)
    → first_fit entries vendor product ≡ none
    → Mem id entries
    → fits vendor product id ≡ false
first_fit-missed [] vendor product id e m = absurd (not-mem-nil m)
first_fit-missed (x ∷ ids) vendor product id e m = elim (Bool-cases (fits vendor product x)) [
  | inl fit ↦ absurd (ground (arith, fit, e))
  | inr unfit ↦
      Or.elim (hlevel) (mem-cons.0 m) (λ same. rw same unfit)
        (first_fit-missed ids vendor product id (ground (arith, unfit, e)))
]

abbrev core : UsbCore
core = record { match_id = first_fit }

core-IsUsbCore : IsUsbCore core
core-IsUsbCore = record { found = first_fit-found; missed = first_fit-missed }

abbrev idle : Bus
idle = record { bound = λ p. false; log = [] }

-- A pen drive at port 1 and another device at port 2, both removed.
abbrev visits : List Event
visits = plugged 1 0x058F 0x6387 ∷ plugged 2 0x046D 0xC077 ∷ unplugged 1 ∷ unplugged 2 ∷ []

run-messages_example : (run core pen_driver visits idle).log ≡ messages (λ p. false) visits
run-messages_example = run-messages core core-IsUsbCore visits idle

messages_test :
    messages (λ p. false) visits
    ≡ text "Pen drive (058F:6387) plugged" ∷ text "Pen drive removed" ∷ []
messages_test = refl
