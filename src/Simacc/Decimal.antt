-- ===== src/Simacc/Decimal.antt =====
-- The decimal text of a number: its digits, its value, its length.
use native.Mathlib.Nat.{pow-suc}
use kernel_modules_playgroun.Prelude.{
  ℕ, zero, suc, ◌+◌, ◌/◌, ◌%◌, ◌^◌, ◌<◌, ◌≤◌, ◌≡◌, ◌↔◌, ◌∙◌, ap, true, ltb, Bool-cases, inl, inr,
  List, [], ◌∷◌, ◌++◌, arith, length, append_assoc, append-nil, sym,
}
use kernel_modules_playgroun.Prelude.Bytes.{Text}
use kernel_modules_playgroun.Simacc.Driver.{is_digit, digits, decimal}
use kernel_modules_playgroun.Simacc.Runs.{value_from, value, ended_runs, Bytes}

value-digits :
    (fuel n : ℕ) (rest : Text)
    → n < 10 ^ fuel
    → value_from 0 (digits fuel n rest) ≡ value_from n rest
unfolding digits
value-digits zero n rest h = ap (λ m. value_from m rest) (omega arith)
value-digits (suc fuel) n rest h = elim (Bool-cases (ltb n 10)) [
  | inl small ↦ rw small (ap (λ m. value_from m rest) (omega arith))
  | inr big ↦ rw big (
      value-digits fuel (n / 10) ((48 + n % 10) ∷ rest) (omega (arith, pow-suc 10 fuel))
      ∙ ap (λ m. value_from m rest) (omega arith))
]

-- The digits of a 64-bit number have its value.
pub value-decimal : (n : ℕ) → n < 18446744073709551616 → value (decimal n) ≡ n
value-decimal n h = value-digits 20 n [] (omega arith)

abbrev pub Digits : Text → Type 0
Digits [] = Unit {0}
Digits (c ∷ cs) = (is_digit c ≡ true) × (c < 256) × Digits cs

digits-Digits : (fuel n : ℕ) (rest : Text) → Digits rest → Digits (digits fuel n rest)
unfolding digits
digits-Digits zero n rest d = d
digits-Digits (suc fuel) n rest d = elim (Bool-cases (ltb n 10)) [
  | inl small ↦ rw small (ground arith, ground arith, d)
  | inr big ↦
      rw big (digits-Digits fuel (n / 10) ((48 + n % 10) ∷ rest) (ground arith, ground arith, d))
]

pub decimal-Digits : (n : ℕ) → Digits (decimal n)
decimal-Digits n = digits-Digits 20 n [] tt

pub Digits-Bytes : (cs : Text) → Digits cs → Bytes cs
Digits-Bytes [] d = tt
Digits-Bytes (c ∷ cs) d = (d.1, Digits-Bytes cs d.2)

-- Digits lengthen the run that they stand in.
pub ended_runs-Digits :
    (ds run rest : List ℕ) → Digits ds → ended_runs run (ds ++ rest) ≡ ended_runs (run ++ ds) rest
ended_runs-Digits [] run rest d = ap (λ r. ended_runs r rest) (sym (append-nil run))
ended_runs-Digits (c ∷ ds) run rest d = rw d.0 (
    ended_runs-Digits ds (run ++ c ∷ []) rest d.2
    ∙ ap (λ r. ended_runs r rest) (append_assoc run (c ∷ []) ds))

ten-le-pow : (k : ℕ) → 10 ≤ 10 ^ suc k
ten-le-pow zero = omega arith
ten-le-pow (suc k) = omega (arith, pow-suc 10 (suc k), ten-le-pow k)

length-digits :
    (fuel n : ℕ) (rest : Text) (k : ℕ)
    → 0 < n
    → n < 10 ^ fuel
    → (length (digits fuel n rest) ≤ length rest + k) ↔ (n < 10 ^ k)
unfolding digits
length-digits zero n rest k pos h = absurd (omega arith)
length-digits (suc fuel) n rest zero pos h = elim (Bool-cases (ltb n 10)) [
  | inl small ↦ rw small (λ c. absurd (omega arith), λ c. absurd (omega arith))
  | inr big ↦
      let (shorter, _) =
        length-digits fuel (n / 10) ((48 + n % 10) ∷ rest) 0 (ground arith)
          (omega (arith, pow-suc 10 fuel)) in
      rw big (λ c. absurd (ground (arith, shorter (omega arith))), λ c. absurd (omega arith))
]
length-digits (suc fuel) n rest (suc k) pos h = elim (Bool-cases (ltb n 10)) [
  | inl small ↦ rw small (λ c. ground (arith, ten-le-pow k), λ c. omega arith)
  | inr big ↦
      let (shorter, longer) =
        length-digits fuel (n / 10) ((48 + n % 10) ∷ rest) k (ground arith)
          (omega (arith, pow-suc 10 fuel)) in
      rw big (
        λ c. omega (arith, shorter (omega arith), pow-suc 10 k),
        λ c. omega (arith, longer (omega (arith, pow-suc 10 k))),
      )
]

-- A number needs at most 15 digits exactly if it is below 10^15.
pub length-decimal :
    (n : ℕ) → n < 18446744073709551616 → (length (decimal n) < 16) ↔ (n < 1000000000000000)
unfolding digits
length-decimal zero h = (λ c. omega arith, λ c. omega arith)
length-decimal (suc n) h =
    let (shorter, longer) = length-digits 20 (suc n) [] 15 (omega arith) (omega arith) in
    (λ c. omega (arith, shorter (omega arith)), λ c. omega (arith, longer (omega arith)))
