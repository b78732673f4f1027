-- ===== src/Ports/Examples.antt =====
-- A controller with data at every read, from the mouse each second time; and two keys.
use kernel_modules_playgroun.Prelude.{ℕ, ◌+◌, ◌*◌, ◌%◌, ◌≡◌, refl, negsuc, some}
use kernel_modules_playgroun.Ports.Mouse.{signed_char, mouse_init}
use kernel_modules_playgroun.Ports.Polling.{packets, mouse_init-packets}

abbrev status : ℕ → ℕ
status n = 1 + 32 * (n % 2)

abbrev data_at : ℕ → ℕ
data_at n = n % 256

mouse_init-packets_example : mouse_init status data_at 101 ≡ some (packets data_at 100 0)
mouse_init-packets_example = mouse_init-packets status data_at 100

-- 255 in the port is logged as -1.
signed_char_test : signed_char 255 ≡ negsuc 0
signed_char_test = refl
