-- ===== src/Programs/KeylogTest.antt =====
-- `main` of keyboard_interrupt_misc_device_test.c.
use kernel_modules_playgroun.Prelude.{
  ℕ, Bool, true, false, Option, none, some, List, [], ◌∷◌, ◌++◌, length, pos, negsuc, u32, signed32,
}
use kernel_modules_playgroun.Prelude.Bytes.{Text, text}
use kernel_modules_playgroun.Kobjects.Driver.{print_int}
use kernel_modules_playgroun.Programs.Stdio.{Stdout, opened, printf, write_out, Process, returns}

-- `printf` with one `%d`, whose argument is taken as an `int`.
abbrev pub line : Text → ℕ → Text → Text
line before n behind = before ++ (print_int (signed32 (u32 n)) ++ (behind ++ 10 ∷ []))

abbrev pub device_path : Text
device_path = text "/dev/keylog"

abbrev pub opened_line : ℕ → Text
opened_line fd = line (text "/dev/keylog was opened, fd = ") fd []

abbrev pub read_line : ℕ → Text
read_line nread = line [] nread (text " characters were read")

-- The program behind the call of `read`, whose answer is the bytes read, and `none` is -1.
abbrev pub after_read : Option (List ℕ) → Stdout → Process
after_read none out = returns out (text "read" ∷ []) false (negsuc 0)
after_read (some bytes) out =
    returns (write_out bytes (printf (read_line (length bytes)) out)) [] true (pos 0)

-- The answer of `open` is a file descriptor; `none` is -1.
unfoldable pub main : Bool → Option ℕ → Option (List ℕ) → Process
main terminal none answer = returns (opened terminal) (text "open" ∷ []) false (negsuc 0)
main terminal (some fd) answer = after_read answer (printf (opened_line fd) (opened terminal))
