-- ===== src/Usb/Core.antt =====
-- What usb_basic.c relies on of the kernel's USB core: how it finds the entry of a driver's table of
-- devices that fits a device.
use mathlib.Core.List.{Mem}
use kernel_modules_playgroun.Prelude.{
  ℕ, ◌≡◌, Bool, true, false, ◌==◌, ◌&&◌, Option, none, some, List,
}

-- `struct usb_device_id`, as far as `USB_DEVICE(vendor, product)` fills it.
pub record UsbDeviceId : Type 0 where
  pub id_vendor : ℕ
  pub id_product : ℕ

-- Whether an entry is for a device of these numbers.
abbrev pub fits : ℕ → ℕ → UsbDeviceId → Bool
fits vendor product id = (id.id_vendor == vendor) && (id.id_product == product)

pub record UsbCore : Type 0 where
  pub match_id : List UsbDeviceId → ℕ → ℕ → Option UsbDeviceId

-- `entries` are those before the terminating one. The core finds an entry that fits the device, and
-- finds none only if none fits.
pub record IsUsbCore (core : UsbCore) : Type 0 where
  pub found :
      (entries : List UsbDeviceId) (vendor product : ℕ) (id : UsbDeviceId)
      → core.match_id entries vendor product ≡ some id
      → Mem id entries × (fits vendor product id ≡ true)
  pub missed :
      (entries : List UsbDeviceId) (vendor product : ℕ) (id : UsbDeviceId)
      → core.match_id entries vendor product ≡ none
      → Mem id entries
      → fits vendor product id ≡ false
