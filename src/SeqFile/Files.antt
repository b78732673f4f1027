-- ===== src/SeqFile/Files.antt =====
-- The tables of seq_file_procfs.c, and processes that read /proc/example/seq_proc through seq_file:
-- each read calls start with the position, shows records while the user's buffer has room, and calls
-- stop.
use kernel_modules_playgroun.Prelude.{
  ℕ, zero, suc, ◌+◌, ◌-◌, ◌≤◌, ◌≡◌, refl, sym, ap, ap₂, ◌∙◌, List, [], ◌∷◌, ◌++◌, length, take,
  arith, ℤ, Option, none,
}
use kernel_modules_playgroun.Prelude.Bytes.{Text}
use kernel_modules_playgroun.SeqFile.Driver.{Tasks, ring, my_start, my_next, my_show, records}
use kernel_modules_playgroun.SeqFile.Rounds.{round, records-round, records-append}

-- It only logs.
unfoldable pub my_stop : ℕ → Unit {0}
my_stop v = tt

-- `struct seq_operations`, over the tasks of the moment.
pub record SeqOperations : Type 0 where
  pub start : Tasks → ℕ → ℕ
  pub next : Tasks → ℕ → ℕ → ℕ
  pub stop : ℕ → Unit {0}
  pub show : Tasks → ℕ → Text

abbrev pub swaps_op : SeqOperations
swaps_op = record { start = my_start; next = my_next; stop = my_stop; show = my_show }

-- What `seq_open` is given, and its answer.
unfoldable pub my_open : (SeqOperations → ℤ) → ℤ
my_open seq_open = seq_open swaps_op

-- `struct file_operations`: no function for writing, and all others but this one are seq_file's.
pub record FileOperations : Type 0 where
  pub on_open : (SeqOperations → ℤ) → ℤ
  pub write : Option (List ℕ → ℤ)

abbrev pub fops : FileOperations
fops = record { on_open = my_open; write = none }

-- The first `n` records from `v` on.
unfoldable pub show_from : SeqOperations → ℕ → Tasks → ℕ → ℕ → List Text
show_from ops zero ts v position = []
show_from ops (suc n) ts v position =
    ops.show ts v ∷ show_from ops n ts (ops.next ts v position) (suc position)

-- A read into a buffer with room for `n` records, at a position.
unfoldable pub seq_read : SeqOperations → ℕ → Tasks → ℕ → List Text
seq_read ops n ts position = show_from ops n ts (ops.start ts position) position

-- A process that reads again and again, with room for as many records each time.
unfoldable pub reads : SeqOperations → ℕ → ℕ → Tasks → ℕ → List (List Text)
reads ops zero n ts position = []
reads ops (suc k) n ts position = seq_read ops n ts position ∷ reads ops k n ts (position + n)

show_from-records :
    (n : ℕ) (ts : Tasks) (v position : ℕ)
    → show_from swaps_op n ts v position ≡ (records n ts v position).0
unfolding show_from records
show_from-records zero ts v position = refl
show_from-records (suc n) ts v position =
    ap (λ rs. my_show ts v ∷ rs) (show_from-records n ts (my_next ts v position) (suc position))

length-records : (n : ℕ) (ts : Tasks) (v position : ℕ) → length (records n ts v position).0 ≡ n
unfolding records
length-records zero ts v position = refl
length-records (suc n) ts v position =
    ap suc (length-records n ts (my_next ts v position) (suc position))

take-append : (n : ℕ) (xs ys : List Text) → length xs ≡ n → take n (xs ++ ys) ≡ xs
take-append zero [] ys e = refl
take-append zero (x ∷ xs) ys e = absurd (omega arith)
take-append (suc n) [] ys e = absurd (omega arith)
take-append (suc n) (x ∷ xs) ys e = ap (λ zs. x ∷ zs) (take-append n xs ys (omega arith))

-- The first records of a round.
records-take :
    (n m : ℕ) (ts : Tasks) (position : ℕ)
    → n + m ≡ length (ring ts)
    → (records n ts 0 position).0 ≡ take n (round ts)
records-take n m ts position size =
    let first = records n ts 0 position in
    let rest = records m ts first.1 (position + n) in
    let whole : first.0 ++ rest.0 ≡ round ts =
      ap (λ r. r.0)
        (sym (records-append n m ts 0 position)
          ∙ ap (λ k. records k ts 0 position) size
          ∙ records-round ts position) in
    sym (take-append n first.0 rest.0 (length-records n ts 0 position)) ∙ ap (take n) whole

-- The list of `k` times the same.
abbrev pub repeat {ℓ} : {A : Type ℓ} → ℕ → A → List A
repeat zero x = []
repeat (suc k) x = x ∷ repeat k x

-- A process reads again and again into a buffer with room for `n` records, not more than there are
-- tasks: each read, whatever the position, shows the first `n` tasks behind the current one again,
-- and no other task is ever shown.
pub reads-repeat :
    (k n : ℕ) (ts : Tasks) (position : ℕ)
    → n ≤ length (ring ts)
    → reads swaps_op k n ts position ≡ repeat k (take n (round ts))
unfolding reads seq_read my_start
reads-repeat zero n ts position few = refl
reads-repeat (suc k) n ts position few =
    ap₂ (λ r rs. r ∷ rs)
      (show_from-records n ts 0 position
        ∙ records-take n (length (ring ts) - n) ts position (omega arith))
      (reads-repeat k n ts (position + n) few)
