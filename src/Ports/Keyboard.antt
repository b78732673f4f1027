-- ===== src/Ports/Keyboard.antt =====
-- The interrupt handler of keyboard_interrupt.c. What port 0x60 answers is a parameter.
use kernel_modules_playgroun.Prelude.{
  ℕ, ◌+◌, ◌<◌, ◌==◌, ◌||◌, if◌then◌else◌, ◌≡◌, List, [], ◌∷◌, ◌++◌, u8, arith,
}
use kernel_modules_playgroun.Ports.Mouse.{masked}

pub data Line : Type 0 where
  key_released key_pressed pressed_esc : Line

-- The lines of one interrupt; it returns IRQ_HANDLED.
unfoldable pub irq_handler : ℕ → List Line
irq_handler inb =
    let scancode = u8 inb in
    (if masked scancode 128 == 0 then key_pressed ∷ [] else key_released ∷ [])
    ++ (if (scancode == 1) || (scancode == 129) then pressed_esc ∷ [] else [])

-- A key with a scan code below 128 is pressed and let go.
abbrev pub stroke : ℕ → List Line
stroke code = irq_handler code ++ irq_handler (code + 128)

-- A press and a release are told apart, and Esc alone, with the scan code 1, is announced at both.
stroke_lem :
    (code : ℕ)
    → code < 128
    → stroke code ≡ (
        if code == 1
        then key_pressed ∷ pressed_esc ∷ key_released ∷ pressed_esc ∷ []
        else key_pressed ∷ key_released ∷ [])
unfolding irq_handler
stroke_lem code small = ground arith
