-- ===== src/Simacc/Runs.antt =====
-- The numbers in a text, described without the loop of file_proc.c, and the loop against them.
use kernel_modules_playgroun.Prelude.{
  ℕ, zero, suc, ◌+◌, ◌-◌, ◌*◌, ◌<◌, ◌≡◌, refl, ◌∙◌, ap, false, ◌==◌, Bool-cases, inl, inr,
  if◌then◌else◌, List, [], ◌∷◌, ◌++◌, arith, u64, drop,
}
use kernel_modules_playgroun.Simacc.Driver.{is_digit, scan, terminator, char_to_int}

-- The number that a run of digits is read as, when `n` has been read of it.
abbrev pub value_from : ℕ → List ℕ → ℕ
value_from n [] = n
value_from n (c ∷ cs) = value_from (n * 10 + (c - 48)) cs

abbrev pub value : List ℕ → ℕ
value = value_from 0

-- The runs of digits that a character which is no digit ends, the first one begun with `run`.
abbrev pub ended_runs : List ℕ → List ℕ → List (List ℕ)
ended_runs run [] = []
ended_runs run (c ∷ cs) =
    let more = ended_runs (run ++ c ∷ []) cs in
    let next = run ∷ ended_runs [] cs in if is_digit c then more else next

-- The sum of the numbers, with no bound.
abbrev pub total : List (List ℕ) → ℕ
total [] = 0
total (run ∷ runs) = value run + total runs

abbrev pub Bytes : List ℕ → Type 0
Bytes [] = Unit {0}
Bytes (c ∷ cs) = (c < 256) × Bytes cs

value_from-snoc :
    (n : ℕ) (cs : List ℕ) (c : ℕ) → value_from n (cs ++ c ∷ []) ≡ value_from n cs * 10 + (c - 48)
value_from-snoc n [] c = refl
value_from-snoc n (d ∷ cs) c = value_from-snoc (n * 10 + (d - 48)) cs c

-- No `char` is the terminator.
not_terminator : (c : ℕ) → c < 256 → (char_to_int c == terminator) ≡ false
not_terminator c h = ground arith

scan-runs :
    (cs run : List ℕ) (num sum before : ℕ)
    → Bytes cs
    → num ≡ u64 (value run)
    → sum ≡ u64 before
    → scan cs num sum ≡ u64 (before + total (ended_runs run cs))
unfolding scan
scan-runs [] run num sum before bytes hn hs = omega arith
scan-runs (c ∷ cs) run num sum before bytes hn hs = elim (Bool-cases (is_digit c)) [
  | inl d ↦
      simp (not_terminator c bytes.0, d)
        (scan-runs cs (run ++ c ∷ []) _ sum before bytes.1 (omega (arith, value_from-snoc 0 run c))
          hs)
  | inr d ↦
      simp (not_terminator c bytes.0, d)
        (scan-runs cs [] 0 _ (before + value run) bytes.1 refl (omega arith) ∙ omega arith)
]

-- On bytes, the loop goes through the whole buffer, and its result is the sum of the numbers in it
-- modulo 2^64. A number that runs to the very end of the buffer is not counted.
pub scan-total : (cs : List ℕ) → Bytes cs → scan cs 0 0 ≡ u64 (total (ended_runs [] cs))
scan-total cs bytes = scan-runs cs [] 0 0 0 bytes refl refl ∙ omega arith

-- A separator splits the runs.
pub ended_runs-separator :
    (xs run ys : List ℕ) (c : ℕ)
    → is_digit c ≡ false
    → ended_runs run (xs ++ c ∷ ys) ≡ ended_runs run (xs ++ c ∷ []) ++ ended_runs [] ys
ended_runs-separator [] run ys c d = rw d refl
ended_runs-separator (x ∷ xs) run ys c d = elim (Bool-cases (is_digit x)) [
  | inl e ↦ rw e (ended_runs-separator xs (run ++ x ∷ []) ys c d)
  | inr e ↦ rw e (ap (λ r. run ∷ r) (ended_runs-separator xs [] ys c d))
]

pub total-append : (xs ys : List (List ℕ)) → total (xs ++ ys) ≡ total xs + total ys
total-append [] ys = omega arith
total-append (x ∷ xs) ys = omega (arith, total-append xs ys)

abbrev pub Blank : List ℕ → Type 0
Blank [] = Unit {0}
Blank (c ∷ cs) = (is_digit c ≡ false) × Blank cs

-- Where there is no digit there is nothing to add.
pub total-Blank : (cs : List ℕ) → Blank cs → total (ended_runs [] cs) ≡ 0
total-Blank [] b = refl
total-Blank (c ∷ cs) b = rw b.0 (omega (arith, total-Blank cs b.1))

pub Bytes-append : (xs ys : List ℕ) → Bytes xs → Bytes ys → Bytes (xs ++ ys)
Bytes-append [] ys bx by = by
Bytes-append (x ∷ xs) ys bx by = (bx.0, Bytes-append xs ys bx.1 by)

pub Bytes-drop : (n : ℕ) (xs : List ℕ) → Bytes xs → Bytes (drop n xs)
Bytes-drop zero xs b = b
Bytes-drop (suc n) [] b = b
Bytes-drop (suc n) (x ∷ xs) b = Bytes-drop n xs b.1

pub Blank-drop : (n : ℕ) (xs : List ℕ) → Blank xs → Blank (drop n xs)
Blank-drop zero xs b = b
Blank-drop (suc n) [] b = b
Blank-drop (suc n) (x ∷ xs) b = Blank-drop n xs b.1
