-- ===== src/Kobjects/Scanning.antt =====
-- `%d` reads back what `%d` has printed.
use native.Mathlib.Nat.{pow-suc}
use kernel_modules_playgroun.Prelude.{
  ℕ, zero, suc, ◌+◌, ◌-◌, ◌*◌, ◌/◌, ◌%◌, ◌^◌, ◌<◌, ◌≡◌, ◌≢◌, refl, ◌∙◌, ap, true, false, ◌==◌, ltb,
  Bool-cases, inl, inr, some, [], ◌∷◌, ◌++◌, arith, u32, signed32, pos, negate,
}
use kernel_modules_playgroun.Prelude.Bytes.{Text}
use kernel_modules_playgroun.Prelude.Scanf.{is_space, skip_spaces}
use kernel_modules_playgroun.Simacc.Driver.{is_digit, digits, decimal}
use kernel_modules_playgroun.Simacc.Decimal.{Digits, decimal-Digits}
use kernel_modules_playgroun.Kobjects.Driver.{
  read_digits, magnitude, negative, signed_number, scan_int, print_int,
}

digits-append :
    (fuel n : ℕ) (rest more : Text) → digits fuel n rest ++ more ≡ digits fuel n (rest ++ more)
unfolding digits
digits-append zero n rest more = refl
digits-append (suc fuel) n rest more = elim (Bool-cases (ltb n 10)) [
  | inl small ↦ rw small refl
  | inr big ↦ rw big (digits-append fuel (n / 10) ((48 + n % 10) ∷ rest) more)
]

read_digits-digit :
    (acc d : ℕ) (rest : Text)
    → d < 10
    → acc * 10 + d < 18446744073709551616
    → read_digits acc ((48 + d) ∷ rest) ≡ read_digits (acc * 10 + d) rest
unfolding read_digits
read_digits-digit acc d rest small fits =
    let digit : is_digit (48 + d) ≡ true = ground arith in
    rw digit (ap (λ m. read_digits m rest) (omega arith))

read_digits-digits :
    (fuel n : ℕ) (rest : Text)
    → n < 10 ^ fuel
    → n < 18446744073709551616
    → read_digits 0 (digits fuel n rest) ≡ read_digits n rest
unfolding digits
read_digits-digits zero n rest h w = ap (λ m. read_digits m rest) (omega arith)
read_digits-digits (suc fuel) n rest h w = elim (Bool-cases (ltb n 10)) [
  | inl small ↦ rw small (
      read_digits-digit 0 n rest (ground arith) (omega arith)
      ∙ ap (λ m. read_digits m rest) (omega arith))
  | inr big ↦ rw big (
      read_digits-digits fuel (n / 10) ((48 + n % 10) ∷ rest) (omega (arith, pow-suc 10 fuel))
        (omega arith)
      ∙ read_digits-digit (n / 10) (n % 10) rest (omega arith) (omega arith)
      ∙ ap (λ m. read_digits m rest) (omega arith))
]

digits-nonempty : (fuel n c : ℕ) (rest : Text) → digits fuel n (c ∷ rest) ≢ []
unfolding digits
digits-nonempty zero n c rest = λ e. absurd (ground arith)
digits-nonempty (suc fuel) n c rest = elim (Bool-cases (ltb n 10)) [
  | inl small ↦ rw small (λ e. absurd (ground arith))
  | inr big ↦ rw big (digits-nonempty fuel (n / 10) (48 + n % 10) (c ∷ rest))
]

decimal-nonempty : (n : ℕ) → decimal n ≢ []
unfolding digits
decimal-nonempty n = elim (Bool-cases (ltb n 10)) [
  | inl small ↦ rw small (λ e. absurd (ground arith))
  | inr big ↦ rw big (digits-nonempty 19 (n / 10) (48 + n % 10) [])
]

-- A text that starts with digits has no sign and no spaces before them.
signed_number-Digits :
    (ds rest : Text)
    → ds ≢ []
    → Digits ds
    → (skip_spaces (ds ++ rest) ≡ ds ++ rest)
      × (signed_number (ds ++ rest) ≡ some (u32 (read_digits 0 (ds ++ rest))))
      × (magnitude (ds ++ rest) ≡ some (u32 (read_digits 0 (ds ++ rest))))
signed_number-Digits [] rest some_digit d = absurd (some_digit refl)
signed_number-Digits (c ∷ ds) rest some_digit d =
    let space : is_space c ≡ false = ground (arith, d.0) in
    let minus : (c == 45) ≡ false = ground (arith, d.0) in
    (rw space refl, simp (minus, d.0), simp d.0)

read_digits-decimal : (n : ℕ) → n < 4294967296 → u32 (read_digits 0 (decimal n ++ 10 ∷ [])) ≡ n
unfolding read_digits
read_digits-decimal n h =
    rw (digits-append 20 n [] (10 ∷ []))
      (rw (read_digits-digits 20 n (10 ∷ []) (omega arith) (omega arith)) (omega arith))

positive_lem : (n : ℕ) → n < 4294967296 → scan_int (print_int (pos n) ++ 10 ∷ []) ≡ some n
unfolding scan_int
positive_lem n h =
    let (blanks, found, _) =
      signed_number-Digits (decimal n) (10 ∷ []) (decimal-nonempty n) (decimal-Digits n) in
    rw blanks (rw found (ap some (read_digits-decimal n h)))

negative_lem :
    (k : ℕ)
    → 0 < k
    → k < 4294967296
    → scan_int (print_int (negate k) ++ 10 ∷ []) ≡ some (u32 (4294967296 - k))
unfolding scan_int
negative_lem zero some_digit h = absurd (omega arith)
negative_lem (suc n) some_digit h =
    let (_, _, found) =
      signed_number-Digits (decimal (suc n)) (10 ∷ []) (decimal-nonempty (suc n))
        (decimal-Digits (suc n)) in
    ap negative found ∙ ap (λ m. some (u32 (4294967296 - m))) (read_digits-decimal (suc n) h)

-- The number that `%d` has printed is read again.
pub scan_int-print_int :
    (n : ℕ) → n < 4294967296 → scan_int (print_int (signed32 n) ++ 10 ∷ []) ≡ some n
scan_int-print_int n h = elim (Bool-cases (ltb n 2147483648)) [
  | inl small ↦ rw small (positive_lem n h)
  | inr big ↦
      rw big (negative_lem (4294967296 - n) (omega arith) (ground arith) ∙ ap some (ground arith))
]
