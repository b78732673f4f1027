-- ===== src/Ports/Mouse.antt =====
-- The init function of mouse_driver.c. What the ports answer is a parameter: `status n` and `data n`
-- are the values of read `n` of port 0x64 and of port 0x60.
use kernel_modules_playgroun.Prelude.{
  ℕ, zero, suc, ◌+◌, ◌-◌, ℤ, pos, negsuc, u8, ◌*◌, ◌/◌, ◌%◌, ltb, ◌==◌, if◌then◌else◌, Option, none,
  some, List, [], ◌∷◌,
}

-- `x & mask`, for a mask of one bit.
abbrev pub masked : ℕ → ℕ → ℕ
masked x mask = x / mask % 2 * mask

-- A value of a port, in a `char`, which is signed, as `%d` logs it.
abbrev pub signed_char : ℕ → ℤ
signed_char x = let b = u8 x in if ltb b 128 then pos b else negsuc (255 - b)

-- What is logged for one packet: which device, and `keys`, `x_mov` and `y_mov`.
pub data Device : Type 0 where
  mouse keyboard : Device

pub record Packet : Type 0 where
  pub device : Device
  pub keys : ℤ
  pub x_mov : ℤ
  pub y_mov : ℤ

abbrev pub log_packet : Packet → Option (List Packet) → Option (List Packet)
log_packet p none = none
log_packet p (some ps) = some (p ∷ ps)

module _ (status data_at : ℕ → ℕ) where
  -- The second loop, at read `s` of the one port and `d` of the other, with the counter
  -- `loops_for_mouse`; `none` is a loop that goes on when the fuel is used up.
  unfoldable pub poll : ℕ → ℕ → ℕ → ℕ → Option (List Packet)
  poll zero s d loops_for_mouse = none
  poll (suc n) s d loops_for_mouse =
      let scan_code = status s in
      let device = if masked scan_code 32 == 1 then mouse else keyboard in
      let packet : Packet = record {
        device = device;
        keys = signed_char (data_at d);
        x_mov = signed_char (data_at (d + 1));
        y_mov = signed_char (data_at (d + 2));
      } in
      let available = masked scan_code 1 == 1 in
      let rest =
        poll n (suc s) (if available then d + 3 else d)
          (if available then loops_for_mouse + 1 else loops_for_mouse) in
      if ltb loops_for_mouse 100
      then if available then log_packet packet rest else rest
      else some []

  -- The packets logged; it returns 0. The loop before only counts to 10000.
  unfoldable pub mouse_init : ℕ → Option (List Packet)
  mouse_init fuel = poll fuel 0 0 0
