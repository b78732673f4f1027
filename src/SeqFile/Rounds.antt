-- ===== src/SeqFile/Rounds.antt =====
-- What the iteration of seq_file_procfs.c prints.
use native.Mathlib.Nat.{suc-mul, zero-mul}
use kernel_modules_playgroun.Prelude.{
  ℕ, zero, suc, ◌+◌, ◌*◌, ◌≡◌, refl, sym, ap, ◌∙◌, List, [], ◌∷◌, ◌++◌, length, length-append,
  get_or-append, get_or, map, append_assoc, append-nil, ap₂, arith,
}
use kernel_modules_playgroun.Prelude.Bytes.{Text}
use kernel_modules_playgroun.SeqFile.Driver.{
  Task, Tasks, ring, next, task_at, line, my_start, my_next, my_show, records,
}

-- The records of a full round: every other task, then the current one.
abbrev pub round : Tasks → List Text
round ts = map line ts.others ++ line ts.current ∷ []

abbrev pub rounds : ℕ → Tasks → List Text
rounds zero ts = []
rounds (suc k) ts = round ts ++ rounds k ts

next-last : (ts : Tasks) (xs : List Task) → xs ++ [] ≡ ts.others → next ts (length xs) ≡ 0
next-last ts xs e =
    let whole : length ts.others ≡ length xs = sym (ap length e) ∙ ap length (append-nil xs) in
    ground arith

next-inner :
    (ts : Tasks) (xs : List Task) (y : Task) (ys : List Task)
    → xs ++ y ∷ ys ≡ ts.others
    → (next ts (length xs) ≡ suc (length xs)) × (task_at ts (suc (length xs)) ≡ y)
next-inner ts xs y ys e =
    let whole : length ts.others ≡ length xs + suc (length ys) =
      sym (ap length e) ∙ length-append xs (y ∷ ys) in
    (
      ground arith,
      ap (λ zs. get_or zs (length xs) ts.current) (sym e) ∙ get_or-append xs ys y ts.current,
    )

-- From the position before `ys` on.
records-tail :
    (ts : Tasks) (xs ys : List Task) (pos : ℕ)
    → xs ++ ys ≡ ts.others
    → records (suc (length ys)) ts (length xs) pos ≡ (map line ys ++ line ts.current ∷ [], 0)
unfolding records my_next my_show
records-tail ts xs [] pos e = simp (next-last ts xs e)
records-tail ts xs (y ∷ ys) pos e =
    let (inner, found) = next-inner ts xs y ys e in
    let longer : length (xs ++ y ∷ []) ≡ suc (length xs) =
      length-append xs (y ∷ []) ∙ omega arith in
    let rest : records (suc (length ys)) ts (suc (length xs)) (suc pos)
        ≡ (map line ys ++ line ts.current ∷ [], 0) =
      ap (λ n. records (suc (length ys)) ts n (suc pos)) (sym longer)
      ∙ records-tail ts (xs ++ y ∷ []) ys (suc pos) (append_assoc xs (y ∷ []) ys ∙ e) in
    rw inner (ap₂ (λ t r. (line t ∷ r.0, r.1)) found rest)

-- The start of the next round.
pub records-append :
    (n m : ℕ) (ts : Tasks) (v pos : ℕ)
    → records (n + m) ts v pos ≡ (
        let first = records n ts v pos in
        let second = records m ts first.1 (pos + n) in (first.0 ++ second.0, second.1))
unfolding records my_next
records-append zero m ts v pos = ap₂ (λ k p. records k ts v p) (omega arith) (omega arith)
records-append (suc n) m ts v pos =
    let first = records n ts (my_next ts v pos) (suc pos) in
    let more : suc n + m ≡ suc (n + m) = omega arith in
    ap (λ k. records k ts v pos) more
    ∙ ap (λ r. (my_show ts v ∷ r.0, r.1)) (records-append n m ts (my_next ts v pos) (suc pos))
    ∙ ap (λ p. (my_show ts v ∷ (first.0 ++ (records m ts first.1 p).0), (records m ts first.1 p).1))
        (omega arith)

pub records-round : (ts : Tasks) (pos : ℕ) → records (length (ring ts)) ts 0 pos ≡ (round ts, 0)
records-round ts pos = records-tail ts [] ts.others pos refl

records-zero : (ts : Tasks) (pos : ℕ) → records 0 ts 0 pos ≡ ([], 0)
unfolding records
records-zero ts pos = refl

-- Wherever a read starts, the iteration over the tasks shows every task but the current one, then
-- the current one, and goes on with the same again: the records of `k` rounds are those of one, `k`
-- times, and behind them it stands where it started.
pub records-rounds :
    (k : ℕ) (ts : Tasks) (pos : ℕ)
    → records (k * length (ring ts)) ts (my_start ts pos) pos ≡ (rounds k ts, 0)
unfolding my_start
records-rounds zero ts pos =
    let none_left : 0 * length (ring ts) ≡ 0 = zero-mul (length (ring ts)) in
    ap (λ n. records n ts 0 pos) none_left ∙ records-zero ts pos
records-rounds (suc k) ts pos =
    let more : suc k * length (ring ts) ≡ length (ring ts) + k * length (ring ts) =
      omega (arith, suc-mul k (length (ring ts))) in
    ap (λ n. records n ts 0 pos) more
    ∙ records-append (length (ring ts)) (k * length (ring ts)) ts 0 pos
    ∙ simp (records-round ts pos, records-rounds k ts (pos + length (ring ts)))
