-- ===== src/Usb/Driver.antt =====
-- The table and the callbacks of usb_basic.c, and what the kernel calls them for.
use kernel_modules_playgroun.Prelude.{
  ℕ, ◌+◌, ◌/◌, ◌%◌, Bool, false, ◌==◌, ltb, if◌then◌else◌, Option, none, some, List, [], ◌∷◌, ◌++◌,
  ℤ, pos, negsuc,
}
use kernel_modules_playgroun.Prelude.Bytes.{Text, text}
use kernel_modules_playgroun.Usb.Core.{UsbDeviceId, UsbCore}

abbrev pub hex_digit : ℕ → ℕ
hex_digit d = if ltb d 10 then 48 + d else 55 + d

-- `%04X` of a 16-bit number.
abbrev pub hex4 : ℕ → Text
hex4 n =
    hex_digit (n / 4096 % 16)
    ∷ hex_digit (n / 256 % 16)
    ∷ hex_digit (n / 16 % 16)
    ∷ hex_digit (n % 16)
    ∷ []

-- `pen_table`, without the entry that ends it.
abbrev pub pen_table : List UsbDeviceId
pen_table = record { id_vendor = 0x058F; id_product = 0x6387 } ∷ []

-- `pen_probe`: the message and the return value.
unfoldable pub pen_probe : UsbDeviceId → Text × ℤ
pen_probe id = (
  text "Pen drive ("
      ++ (hex4 id.id_vendor ++ (text ":" ++ (hex4 id.id_product ++ text ") plugged"))),
  pos 0,
)

abbrev pub pen_disconnect : Text
pen_disconnect = text "Pen drive removed"

-- `struct usb_driver`
pub record UsbDriver : Type 0 where
  pub name : Text
  pub id_table : List UsbDeviceId
  pub probe : UsbDeviceId → Text × ℤ
  pub disconnect : Text

abbrev pub pen_driver : UsbDriver
pen_driver = record {
  name = text "pen_driver";
  id_table = pen_table;
  probe = pen_probe;
  disconnect = pen_disconnect;
}

-- What happens at a port while the driver is registered.
pub data Event : Type 0 where
  plugged : (port vendor product : ℕ) → Event
  unplugged : (port : ℕ) → Event

-- The ports whose device is bound to the driver, and the messages.
pub record Bus : Type 0 where
  pub bound : ℕ → Bool
  pub log : List Text

abbrev pub at : (ℕ → Bool) → ℕ → Bool → ℕ → Bool
at bound port b p = if p == port then b else bound p

-- A device is bound if the probe of the driver returns 0.
abbrev pub probed : ℕ → Text × ℤ → Bus → Bus
probed port (line, pos n) bus = record bus {
  bound = at bus.bound port (n == 0);
  log = bus.log ++ line ∷ [];
}
probed port (line, negsuc n) bus = record bus { log = bus.log ++ line ∷ [] }

abbrev pub matched : UsbDriver → ℕ → Option UsbDeviceId → Bus → Bus
matched driver port none bus = bus
matched driver port (some id) bus = probed port (driver.probe id) bus

-- The core calls the functions of the driver.
unfoldable pub handle : UsbCore → UsbDriver → Event → Bus → Bus
handle core driver (plugged port vendor product) bus =
    matched driver port (core.match_id driver.id_table vendor product) bus
handle core driver (unplugged port) bus =
    if bus.bound port
    then record bus { bound = at bus.bound port false; log = bus.log ++ driver.disconnect ∷ [] }
    else bus

unfoldable pub run : UsbCore → UsbDriver → List Event → Bus → Bus
run core driver [] bus = bus
run core driver (e ∷ es) bus = run core driver es (handle core driver e bus)
