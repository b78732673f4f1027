-- ===== src/Prelude/Tests.antt =====
-- Boolean tests on the native numbers, the conditional, and case splits that keep the equation.
use Prim.Native.Nat.{ℕ, compare, Ordering}
use mathlib.Core.Path.{◌≡◌, refl}
use mathlib.Core.Logic.{◌⊎◌, inl, inr}
use mathlib.Core.Bool.{Bool, true, false, ◌&&◌, ◌||◌}
use native.Mathlib.Omega.{arith}

abbrev pub ltb : ℕ → ℕ → Bool
ltb a b = elim (compare a b) [ Ordering.lt ↦ true | _ ↦ false ]

abbrev pub leb : ℕ → ℕ → Bool
leb a b = elim (compare a b) [ Ordering.gt ↦ false | _ ↦ true ]

infix 50 ◌==◌
abbrev pub ◌==◌ : ℕ → ℕ → Bool
a == b = elim (compare a b) [ Ordering.eq ↦ true | _ ↦ false ]

infix 1 if◌then◌else◌
abbrev pub if◌then◌else◌ {ℓ} : {A : Type ℓ} → Bool → A → A → A
if true then x else y = x
if false then x else y = y

pub ==_refl : (a : ℕ) → (a == a) ≡ true
==_refl a = ground arith

pub Bool-cases : (b : Bool) → (b ≡ true) ⊎ (b ≡ false)
Bool-cases true = inl refl
Bool-cases false = inr refl

pub or-false : (s t : Bool) → (s || t) ≡ false → (s ≡ false) × (t ≡ false)
or-false false t e = (refl, e)
or-false true t e = absurd (ground arith)

pub and-true : (s t : Bool) → (s && t) ≡ true → (s ≡ true) × (t ≡ true)
and-true true t e = (refl, e)
and-true false t e = absurd (ground arith)

pub ==_sym : (a b : ℕ) → (a == b) ≡ false → (b == a) ≡ false
==_sym a b e = ground arith

pub eq-if {ℓ} :
    {A : Type ℓ} {x y z : A} (b : Bool)
    → (b ≡ true → x ≡ y)
    → (b ≡ false → x ≡ z)
    → x ≡ (if b then y else z)
eq-if true yes_case no_case = yes_case refl
eq-if false yes_case no_case = no_case refl
