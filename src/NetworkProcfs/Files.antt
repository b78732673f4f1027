-- ===== src/NetworkProcfs/Files.antt =====
-- The tables of network_procfs.c, and processes that read /proc/net_proc through seq_file, as it is
-- documented: a read calls start with the position, then show and next until a NULL, or until its
-- buffer of a page, or that of the user, has no room for a further record, and stop; a start that
-- answers NULL is the end of the file, and a read moves the position on by the records that it has
-- shown.
use kernel_modules_playgroun.Prelude.{
  ℕ, zero, suc, ◌≢◌, ◌+◌, ◌<◌, ◌≡◌, refl, sym, ap, ◌∙◌, ◌==◌, Bool, true, false, if◌then◌else◌,
  Option, none, some, List, [], ◌∷◌, ◌++◌, length, take, map, arith, ℤ, pos,
}
use kernel_modules_playgroun.NetworkProcfs.Machine.{
  Ptr, null, Entry, Net, Cmd, pure, ◌>>=◌, ◌>>◌, done, out_of_fuel, Ends, Ends-bind,
}
use kernel_modules_playgroun.NetworkProcfs.Linked.{Chain, head, Linked, IsNet, load_lem}
use kernel_modules_playgroun.NetworkProcfs.Driver.{Line, my_start, my_next, my_show, my_write}
use kernel_modules_playgroun.NetworkProcfs.Reading.{
  if_same, line_of, sources, cleared, length-cleared, my_write-cleared,
}

-- It only logs.
unfoldable pub my_stop : Ptr → Cmd (Unit {0})
my_stop v = pure tt

-- `struct seq_operations`
pub record SeqOperations : Type 0 where
  pub start : ℕ → Cmd Ptr
  pub next : Ptr → ℕ → Cmd Ptr
  pub stop : Ptr → Cmd (Unit {0})
  pub show : Ptr → Cmd Line

abbrev pub swaps_op : SeqOperations
swaps_op = record { start = my_start; next = my_next; stop = my_stop; show = my_show }

-- What `seq_open` is given, and its answer.
unfoldable pub my_open : (SeqOperations → ℤ) → ℤ
my_open seq_open = seq_open swaps_op

-- `struct file_operations`; reading, seeking and releasing are those of seq_file.
pub record FileOperations : Type 0 where
  pub on_open : (SeqOperations → ℤ) → ℤ
  pub write : ℕ → ℕ → Cmd ℤ

abbrev pub fops : FileOperations
fops = record { on_open = my_open; write = my_write }

-- What a read shows from the pointer `v` on, with room for so many records.
unfoldable pub show_from : SeqOperations → ℕ → ℕ → Ptr → ℕ → Cmd (List Line)
show_from ops room zero v position = λ _. out_of_fuel
show_from ops zero (suc fuel) v position = pure []
show_from ops (suc room) (suc fuel) v position = if v == null then pure [] else do
  line ← ops.show v
  v' ← ops.next v position
  rest ← show_from ops room fuel v' (position + 1)
  pure (line ∷ rest)

-- One read.
unfoldable pub seq_read : SeqOperations → ℕ → ℕ → ℕ → Cmd (List Line)
seq_read ops room fuel position = do
  v ← ops.start position
  lines ← show_from ops room fuel v position
  ops.stop null
  pure lines

-- A process that reads until a read shows nothing, `rounds` times at most: what it was shown if that
-- happens, and `none` if it does not.
abbrev pub prepend : List Line → Option (List Line) → Option (List Line)
prepend lines none = none
prepend lines (some rest) = some (lines ++ rest)

abbrev pub is_empty : List Line → Bool
is_empty [] = true
is_empty (line ∷ lines) = false

unfoldable pub cat : SeqOperations → ℕ → ℕ → ℕ → ℕ → Cmd (Option (List Line))
cat ops room zero fuel position = pure none
cat ops room (suc rounds) fuel position = do
  lines ← seq_read ops room fuel position
  if is_empty lines
      then pure (some [])
      else do rest ← cat ops room rounds fuel (position + length lines); pure (prepend lines rest)

show_from_lem :
    (room fuel position : ℕ) (v : Ptr) (s : Net) (xs : Chain)
    → v ≡ head xs
    → Linked s.cells xs
    → length xs < fuel
    → show_from swaps_op room fuel v position s ≡ done (take room (map line_of xs)) s
unfolding show_from my_show my_next
show_from_lem room zero position v s xs e l enough = absurd (omega arith)
show_from_lem zero (suc fuel) position v s xs e l enough = refl
show_from_lem (suc room) (suc fuel) position v s [] e l enough = simp e
show_from_lem (suc room) (suc fuel) position v s ((p, x) ∷ xs) e l enough =
    let ne : (p == null) ≡ false = ground arith in
    simp (
      e,
      ne,
      load_lem p _ s l.0 l.2,
      if_same,
      show_from_lem room fuel (position + 1) (head xs) s xs refl l.3 (omega arith),
    )

seq_read_at :
    (room fuel position : ℕ) (s : Net) (xs : Chain)
    → s.root ≡ head xs
    → xs ≢ []
    → Linked s.cells xs
    → length xs < fuel
    → seq_read swaps_op room fuel position s ≡ done (take room (map line_of (sources xs))) s
unfolding seq_read my_start my_stop
seq_read_at room fuel position s [] e ne l enough = absurd (ne refl)
seq_read_at room fuel position s ((p, x) ∷ xs) e ne l enough = simp (
  e,
  load_lem p _ s l.0 l.2,
  show_from_lem room fuel position (head xs) s xs refl l.3 (omega arith),
)

one_round :
    (read : Cmd (List Line)) (more : List Line → Cmd (Option (List Line))) (s : Net)
    (lines : List Line)
    → read s ≡ done lines s
    → (is_empty lines ≡ false → more lines s ≡ done none s)
    → (read >>= λ shown.
          if is_empty shown
          then pure (some [])
          else do rest ← more shown; pure (prepend shown rest))
        s
      ≡ done (if is_empty lines then some [] else none) s
one_round read more s [] e ends = rw e refl
one_round read more s (line ∷ lines) e ends = rw (e, ends refl) refl

-- The line of an entry whose counters are 0.
abbrev pub zero_line : Ptr × Entry → Line
zero_line (p, e) = record { addr = e.addr; packets = pos 0; kilobytes = pos 0 }

map-cleared : (xs : Chain) → map line_of (cleared xs) ≡ map zero_line xs
map-cleared [] = refl
map-cleared ((p, e) ∷ xs) = ap (λ ls. zero_line (p, e) ∷ ls) (map-cleared xs)

lines-cleared : (xs : Chain) → map line_of (sources (cleared xs)) ≡ map zero_line (sources xs)
lines-cleared [] = refl
lines-cleared ((p, e) ∷ xs) = map-cleared xs

take_empty : (room : ℕ) (lines : List Line) → is_empty (take (suc room) lines) ≡ is_empty lines
take_empty room [] = refl
take_empty room (line ∷ lines) = refl

module _ (fuel : ℕ) (s : Net) (xs : Chain) (is : IsNet s xs) (enough : length xs < fuel) where
  -- A read at any position shows the first sources.
  seq_read_lem :
      (room position : ℕ)
      → seq_read swaps_op room fuel position s ≡ done (take room (map line_of (sources xs))) s
  seq_read_lem room position =
      seq_read_at room fuel position s xs is.list.first is.list.nonempty is.list.chain enough

  cat_round :
      (room rounds position : ℕ)
      → (is_empty (map line_of (sources xs)) ≡ false
          → cat swaps_op
              (suc room)
              rounds
              fuel
              (position + length (take (suc room) (map line_of (sources xs))))
              s
            ≡ done none s)
      → cat swaps_op (suc room) (suc rounds) fuel position s
        ≡ done (if is_empty (map line_of (sources xs)) then some [] else none) s
  unfolding cat
  cat_round room rounds position more =
      let empty = take_empty room (map line_of (sources xs)) in
      one_round (seq_read swaps_op (suc room) fuel position)
        (λ lines. cat swaps_op (suc room) rounds fuel (position + length lines)) s _
        (seq_read_lem (suc room) position) (λ some_lines. more (sym empty ∙ some_lines))
      ∙ ap (λ b. done (if b then some [] else none) s) empty

  cat_never :
      (room rounds position : ℕ)
      → is_empty (map line_of (sources xs)) ≡ false
      → cat swaps_op (suc room) rounds fuel position s ≡ done none s
  unfolding cat
  cat_never room zero position some_lines = refl
  cat_never room (suc rounds) position some_lines =
      cat_round room rounds position (cat_never room rounds _)
      ∙ ap (λ b. done (if b then some [] else none) s) some_lines

  -- On a well-formed list with fuel for it, each read, from whatever position, shows as many of the
  -- first sources as there is room for, and never those behind them. With room for at least one, a
  -- process that reads until a read shows nothing finds the end at once if the list has no source,
  -- and never if it has one, however often it reads. Nothing changes.
  pub cat_lem :
      (room rounds position : ℕ)
      → (seq_read swaps_op (suc room) fuel position s
          ≡ done (take (suc room) (map line_of (sources xs))) s)
        × (cat swaps_op (suc room) (suc rounds) fuel position s
            ≡ done (if is_empty (map line_of (sources xs)) then some [] else none) s)
  unfolding cat
  cat_lem room rounds position = (
    seq_read_lem (suc room) position,
    cat_round room rounds position (λ some_lines.
        cat_never room rounds (position + length (take (suc room) (map line_of (sources xs))))
          some_lines),
  )

  -- On a well-formed list with fuel for it, a write and then a read at any position come to an end.
  -- The read shows the same addresses in the same order, each with 0 packets and 0 kilobytes, as far
  -- as there is room for them, and the list is well-formed, with its counters at 0.
  pub seq_read-my_write :
      (room len position : ℕ)
      → Ends
          (λ lines s'. (lines ≡ take room (map zero_line (sources xs))) × IsNet s' (cleared xs))
          ((do fops.write fuel len; seq_read swaps_op room fuel position) s)
  seq_read-my_write room len position =
      Ends-bind _ _ (my_write fuel len s) _ (my_write-cleared fuel s xs is enough len) λ ret s' w.
        rw
          (seq_read_at room fuel position s' (cleared xs) w.0.list.first w.0.list.nonempty
            w.0.list.chain (omega (arith, length-cleared xs, enough)))
          (ap (take room) (lines-cleared xs), w.0)
