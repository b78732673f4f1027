-- ===== src/Usb/Plugging.antt =====
-- What usb_basic.c logs for any sequence of devices.
use mathlib.Core.HLevel.{⊥_prop}
use mathlib.Core.Logic.Or
use mathlib.Core.List.{mem-cons, mem-cons_self, not-mem-nil}
use kernel_modules_playgroun.Prelude.{
  ℕ, ◌≡◌, ◌≢◌, refl, sym, ap, ◌∙◌, Bool, true, false, ◌==◌, ◌&&◌, if◌then◌else◌, Bool-cases, inl,
  inr, Option, none, some, List, [], ◌∷◌, ◌++◌, append-nil, append_assoc, arith,
}
use kernel_modules_playgroun.Prelude.Bytes.{Text, text}
use kernel_modules_playgroun.Usb.Core.{UsbDeviceId, UsbCore, IsUsbCore}
use kernel_modules_playgroun.Usb.Driver.{
  pen_table, pen_probe, pen_driver, Event, plugged, unplugged, Bus, at, handle, run,
}

-- The numbers of the pen drive.
abbrev pub is_pen : ℕ → ℕ → Bool
is_pen vendor product = (0x058F == vendor) && (0x6387 == product)

-- The messages, from the events alone: `there` are the ports at which a pen drive is plugged in.
abbrev pub messages : (ℕ → Bool) → List Event → List Text
messages there [] = []
messages there (plugged port vendor product ∷ es) =
    let pen = text "Pen drive (058F:6387) plugged" ∷ messages (at there port true) es in
    let other = messages there es in if is_pen vendor product then pen else other
messages there (unplugged port ∷ es) =
    let removed = text "Pen drive removed" ∷ messages (at there port false) es in
    let other = messages there es in if there port then removed else other

abbrev pen : UsbDeviceId
pen = record { id_vendor = 0x058F; id_product = 0x6387 }

module _ (core : UsbCore) (port : ℕ) (bus : Bus) where
  handle-bound :
      bus.bound port ≡ true
      → handle core pen_driver (unplugged port) bus
        ≡ record { bound = at bus.bound port false; log = bus.log ++ text "Pen drive removed" ∷ [] }
  unfolding handle
  handle-bound bound = rw bound refl

  handle-free : bus.bound port ≡ false → handle core pen_driver (unplugged port) bus ≡ bus
  unfolding handle
  handle-free free = rw free refl

module _ (core : UsbCore) (lawful : IsUsbCore core) where
  match-is_pen :
      (vendor product : ℕ) (answer : Option UsbDeviceId)
      → core.match_id pen_table vendor product ≡ answer
      → is_pen vendor product ≡ true
      → answer ≡ some pen
  match-is_pen vendor product none e is =
      let missed = lawful.missed pen_table vendor product pen e mem-cons_self in
      absurd (ground (arith, missed, is))
  match-is_pen vendor product (some id) e is =
      let found = (lawful.found pen_table vendor product id e).1 in
      ap some (ground (arith, found, is))

  match-other :
      (vendor product : ℕ) (answer : Option UsbDeviceId)
      → core.match_id pen_table vendor product ≡ answer
      → is_pen vendor product ≡ false
      → answer ≡ none
  match-other vendor product none e other = refl
  match-other vendor product (some id) e other =
      let (listed, found) = lawful.found pen_table vendor product id e in
      let is : id ≢ pen = λ same. absurd (ground (arith, found, same, other)) in
      absurd (Or.elim ⊥_prop (mem-cons.0 listed) is not-mem-nil)

  handle-is_pen :
      (port vendor product : ℕ) (bus : Bus)
      → is_pen vendor product ≡ true
      → handle core pen_driver (plugged port vendor product) bus ≡ record {
        bound = at bus.bound port true;
        log = bus.log ++ text "Pen drive (058F:6387) plugged" ∷ [];
      }
  unfolding handle pen_probe
  handle-is_pen port vendor product bus is = rw (match-is_pen vendor product _ refl is) refl

  handle-other :
      (port vendor product : ℕ) (bus : Bus)
      → is_pen vendor product ≡ false
      → handle core pen_driver (plugged port vendor product) bus ≡ bus
  unfolding handle
  handle-other port vendor product bus other = rw (match-other vendor product _ refl other) refl

  -- On a USB core that finds the entries of a table as documented, and for every sequence of devices
  -- plugged in and removed at any ports, the driver adds the messages that are computed from the
  -- events and the ports bound before: one line with the numbers 058F:6387 for each pen drive
  -- of these numbers that is plugged in, one for the removal from each port where one is, and none
  -- for any other device.
  pub run-messages :
      (es : List Event) (bus : Bus)
      → (run core pen_driver es bus).log ≡ bus.log ++ messages bus.bound es
  unfolding run
  run-messages [] bus = sym (append-nil bus.log)
  run-messages (plugged port vendor product ∷ es) bus = elim (Bool-cases (is_pen vendor product)) [
    | inl is ↦ rw is (
        ap (λ b. (run core pen_driver es b).log) (handle-is_pen port vendor product bus is)
        ∙ run-messages es _
        ∙ append_assoc bus.log (text "Pen drive (058F:6387) plugged" ∷ []) _)
    | inr other ↦ rw other (
        ap (λ b. (run core pen_driver es b).log) (handle-other port vendor product bus other)
        ∙ run-messages es bus)
  ]
  run-messages (unplugged port ∷ es) bus = elim (Bool-cases (bus.bound port)) [
    | inl bound ↦ rw bound (
        ap (λ b. (run core pen_driver es b).log) (handle-bound core port bus bound)
        ∙ run-messages es _
        ∙ append_assoc bus.log (text "Pen drive removed" ∷ []) _)
    | inr free ↦ rw free (
        ap (λ b. (run core pen_driver es b).log) (handle-free core port bus free)
        ∙ run-messages es bus)
  ]
