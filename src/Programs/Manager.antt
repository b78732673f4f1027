-- ===== src/Programs/Manager.antt =====
-- `main` of manager.c, which writes to /dev/mem, calls its ioctl and reads from it.
use kernel_modules_playgroun.Prelude.{
  ℕ, suc, ◌≡◌, refl, ap, ◌∙◌, Bool, true, false, Option, none, some, List, [], ◌∷◌, ◌++◌, length,
  drop, arith, ℤ, pos, negsuc, signed32, u32, append-nil, zero,
}
use kernel_modules_playgroun.Prelude.Bytes.{Text, text, c_string}
use kernel_modules_playgroun.Simacc.Driver.{digits}
use kernel_modules_playgroun.Kobjects.Driver.{print_int}
use kernel_modules_playgroun.Sysfs.Attributes.{NoZero}
use kernel_modules_playgroun.Programs.Stdio.{Stdout, opened, printf, Process, returns}

-- A file descriptor as `open` answers it; `none` is -1.
abbrev pub descriptor : Option ℕ → ℤ
descriptor none = negsuc 0
descriptor (some fd) = signed32 (u32 fd)

-- What the system answers: to `open`, to a write of 5 bytes, and to a read of 30 bytes, by the
-- descriptor. `none` is -1. The answer to the ioctl is not looked at.
pub record System : Type 0 where
  pub open_answer : Option ℕ
  pub write_answer : Option ℕ → Option ℕ
  pub read_answer : Option ℕ → Option (List ℕ)

-- The documented behaviour: a write to a descriptor that is not open fails.
pub record IsSystem (os : System) : Type 0 where
  pub bad_write : os.write_answer none ≡ none

-- Behind the read. `stack` is what stood in `x` and stands behind it in memory; `%s` prints up to
-- the first 0, wherever it is.
abbrev pub after_read : List ℕ → Option (List ℕ) → Stdout → Process
after_read stack none out = returns out (text "Read" ∷ []) false (negsuc 0)
after_read stack (some bytes) out =
    let string = c_string (bytes ++ drop (length bytes) stack) in
    returns (printf (string ++ (text " -- " ++ (print_int (pos (length bytes)) ++ 10 ∷ []))) out) []
      true (pos 0)

abbrev pub after_write : System → Option ℕ → List ℕ → Option ℕ → Stdout → Process
after_write os device stack none out = returns out (text "write" ∷ []) false (negsuc 0)
after_write os device stack (some n) out = after_read stack (os.read_answer device) out

unfoldable pub main : System → Bool → List ℕ → Process
main os terminal stack =
    let device = os.open_answer in
    after_write os device stack (os.write_answer device)
      (printf (print_int (descriptor device) ++ 10 ∷ []) (opened terminal))

-- Where /dev/mem cannot be opened, the program prints -1, reports the error of the write, and
-- returns -1.
pub main-unopened :
    (os : System) (terminal : Bool) (stack : List ℕ)
    → IsSystem os
    → os.open_answer ≡ none
    → main os terminal stack ≡ record {
      output = text "-1" ++ 10 ∷ [];
      complaints = text "write" ∷ [];
      closed = false;
      status = negsuc 0;
    }
unfolding main digits
main-unopened os true stack lawful e = rw (e, lawful.bad_write) refl
main-unopened os false stack lawful e = rw (e, lawful.bad_write) refl

NoZero-append :
    (bytes rest : List ℕ) → NoZero bytes → c_string (bytes ++ rest) ≡ bytes ++ c_string rest
NoZero-append [] rest nz = refl
NoZero-append (c ∷ bytes) rest nz = ground (arith, NoZero-append bytes rest nz.1)

drop-append : (n : ℕ) (xs rest : List ℕ) → length xs ≡ n → drop n (xs ++ rest) ≡ rest
drop-append zero [] rest e = refl
drop-append zero (x ∷ xs) rest e = absurd (omega arith)
drop-append (suc n) [] rest e = absurd (omega arith)
drop-append (suc n) (x ∷ xs) rest e = drop-append n xs rest (omega arith)

printed_twice :
    (terminal : Bool) (one two : Text)
    → (returns (printf two (printf one (opened terminal))) [] true (pos 0)).output ≡ one ++ two
printed_twice true one two = append-nil (one ++ two)
printed_twice false one two = refl

-- The write is taken and the read answers with 30 bytes, none of which is 0: the program prints them
-- and goes on with what stands in memory behind its array `x`, up to a 0.
pub main-overruns :
    (os : System) (terminal : Bool) (fd n : ℕ) (bytes x behind : List ℕ)
    → os.open_answer ≡ some fd
    → os.write_answer (some fd) ≡ some n
    → os.read_answer (some fd) ≡ some bytes
    → NoZero bytes
    → length bytes ≡ 30
    → length x ≡ 30
    → (main os terminal (x ++ behind)).output
      ≡ (print_int (descriptor (some fd)) ++ 10 ∷ [])
        ++ ((bytes ++ c_string behind) ++ (text " -- 30" ++ 10 ∷ []))
unfolding main digits
main-overruns os terminal fd n bytes x behind opens writes reads nz size room =
    let string : c_string (bytes ++ drop (length bytes) (x ++ behind)) ≡ bytes ++ c_string behind =
      ap (λ rest. c_string (bytes ++ rest)) (drop-append (length bytes) x behind (omega arith))
      ∙ NoZero-append bytes behind nz in
    rw (opens, writes, reads, string, size) (printed_twice terminal _ _)
