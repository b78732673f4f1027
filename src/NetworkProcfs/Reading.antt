-- ===== src/NetworkProcfs/Reading.antt =====
-- The /proc file of network_procfs.c: the seq_file callbacks, and the write that clears.
use kernel_modules_playgroun.Prelude.{
  ℕ, zero, suc, ◌<◌, ◌≡◌, ◌≢◌, refl, sym, ◌∙◌, true, false, some, List, [], ◌∷◌, ◌==◌, ==_refl,
  if◌then◌else◌, length, arith, u32, signed32, signed64, div_trunc, map, ap, none,
}
use kernel_modules_playgroun.NetworkProcfs.Machine.{
  Ptr, null, Entry, node, Net, done, out_of_fuel, Cmd, pure, ◌>>=◌, Ends, Ends-bind, Ends-mono,
  write, spin_lock, spin_unlock,
}
use kernel_modules_playgroun.NetworkProcfs.Driver.{
  Line, my_start, my_next, my_show, clear, my_write,
}
use kernel_modules_playgroun.NetworkProcfs.Accounting.{view}
use kernel_modules_playgroun.Prelude.Bytes.{Text}
use kernel_modules_playgroun.NetworkProcfs.Linked.{
  Chain, head, has, last, Linked, Linked-write, IsNet, load_lem, modify_lem,
}

-- What one reader of the file prints who starts at the pointer `v`: a line, and then on by
-- `my_next` until that is NULL.
unfoldable pub print_from : ℕ → Ptr → Cmd (List Line)
print_from zero v = λ _. out_of_fuel
print_from (suc fuel) v =
    if v == null
    then pure []
    else do line ← my_show v; v' ← my_next v 0; rest ← print_from fuel v'; pure (line ∷ rest)

unfoldable pub print : ℕ → Cmd (List Line)
print fuel = do v ← my_start 0; print_from fuel v

-- The line of an entry.
abbrev pub line_of : Ptr × Entry → Line
line_of (p, e) = record {
  addr = e.addr;
  packets = signed32 e.count;
  kilobytes = div_trunc (signed64 e.data_used) 1024;
}

abbrev pub sources : Chain → Chain
sources [] = []
sources (x ∷ xs) = xs

-- `if (!ptr) return NULL; else return ptr;`
pub if_same : (p : Ptr) (s : Net) → (if p == null then pure null else pure p) s ≡ done p s
if_same p s = ground arith

print_from_lem :
    (fuel : ℕ) (v : Ptr) (s : Net) (xs : Chain)
    → v ≡ head xs
    → Linked s.cells xs
    → length xs < fuel
    → print_from fuel v s ≡ done (map line_of xs) s
unfolding print_from my_show my_next
print_from_lem zero v s xs e l enough = absurd (omega arith)
print_from_lem (suc fuel) v s [] e l enough = simp e
print_from_lem (suc fuel) v s ((p, x) ∷ xs) e l enough =
    let ne : (p == null) ≡ false = ground arith in
    simp (
      e,
      ne,
      load_lem p _ s l.0 l.2,
      if_same,
      print_from_lem fuel (head xs) s xs refl l.3 (omega arith),
    )

abbrev pub reset : Entry → Entry
reset e = record e { count = 0; data_used = 0 }

-- The list with its counters at 0.
abbrev pub cleared : Chain → Chain
cleared [] = []
cleared ((p, e) ∷ xs) = (p, record e { count = 0; data_used = 0 }) ∷ cleared xs

pub length-cleared : (xs : Chain) → length (cleared xs) ≡ length xs
length-cleared [] = refl
length-cleared ((p, e) ∷ xs) = ap suc (length-cleared xs)

pub view-cleared :
    (t : Text) (xs : Chain)
    → view t (cleared xs) ≡ (elim (view t xs) [ none ↦ none | some e ↦ some (reset e) ])
view-cleared t [] = refl
view-cleared t ((p, e) ∷ xs) = ground (arith, view-cleared t xs)

head-cleared : (xs : Chain) → head (cleared xs) ≡ head xs
head-cleared [] = refl
head-cleared (x ∷ xs) = refl

has-cleared : (a : Ptr) (xs : Chain) → has a (cleared xs) ≡ has a xs
has-cleared a [] = refl
has-cleared a ((p, e) ∷ xs) = ground (arith, has-cleared a xs)

cleared-nil : (xs : Chain) → cleared xs ≡ [] → xs ≡ []
cleared-nil [] e = refl
cleared-nil (x ∷ xs) e = cc

last-cleared : (xs : Chain) → last (cleared xs) ≡ last xs
last-cleared [] = refl
last-cleared (x ∷ []) = refl
last-cleared (x ∷ y ∷ xs) = last-cleared (y ∷ xs)

-- The memory has the list `xs` cleared, and all else is as it was.
abbrev ClearedIn : Net → Chain → Net → Type 0
ClearedIn s xs s' =
    Linked s'.cells (cleared xs)
    × ((a : Ptr) → has a xs ≡ false → s'.cells a ≡ s.cells a)
    × (s'.root ≡ s.root)
    × (s'.tail ≡ s.tail)
    × (s'.cache ≡ s.cache)

clear-ClearedIn :
    (fuel : ℕ) (p : Ptr) (s : Net) (xs : Chain)
    → p ≡ head xs
    → Linked s.cells xs
    → length xs < fuel
    → Ends (λ _. ClearedIn s xs) (clear fuel p s)
unfolding clear
clear-ClearedIn zero p s xs e l enough = absurd (omega arith)
clear-ClearedIn (suc fuel) p s [] e l enough = simp e (tt, (λ a o. refl), refl, refl, refl)
clear-ClearedIn (suc fuel) p s ((q, x) ∷ xs) e l enough =
    let ne : (q == null) ≡ false = ground arith in
    let n1 = node (record x { count = 0 }) (head xs) in
    let n2 = node (reset x) (head xs) in
    let s1 = record s { cells = write s.cells q (some n1) } in
    let s2 = record s1 { cells = write s1.cells q (some n2) } in
    simp
      (
        e,
        ne,
        modify_lem q _ s l.0 l.2,
        modify_lem q n1 s1 l.0 (rw ==_refl),
        load_lem q n2 s2 l.0 (rw ==_refl),
      )
      (Ends-mono (λ _. ClearedIn s2 xs) _ (clear fuel (head xs) s2)
        (clear-ClearedIn fuel (head xs) s2 xs refl
          (Linked-write _ q _ xs (Linked-write _ q _ xs l.3 l.1) l.1) (omega arith))
        λ _ s' c. (
          (l.0, has-cleared q xs ∙ l.1, c.1 q l.1 ∙ rw (==_refl, head-cleared), c.0),
          (λ a o. c.1 a (ground arith) ∙ ground arith),
          c.2,
          c.3,
          c.4,
        ))

print_at :
    (s : Net) (fuel : ℕ) (xs : Chain)
    → s.root ≡ head xs
    → xs ≢ []
    → Linked s.cells xs
    → length xs < fuel
    → print fuel s ≡ done (map line_of (sources xs)) s
unfolding print my_start
print_at s fuel [] e ne l enough = absurd (ne refl)
print_at s fuel ((p, x) ∷ xs) e ne l enough =
    simp (e, load_lem p _ s l.0 l.2, print_from_lem fuel (head xs) s xs refl l.3 (omega arith))

module _ (fuel : ℕ) (s : Net) (xs : Chain) (is : IsNet s xs) (enough : length xs < fuel) where
  -- On a well-formed list with fuel for it, a reader gets one line for each entry but the sentinel,
  -- in the order of the list, and nothing changes.
  pub print_lem : print fuel s ≡ done (map line_of (sources xs)) s
  print_lem = print_at s fuel xs is.list.first is.list.nonempty is.list.chain enough

  -- On a well-formed list with fuel for it, a write ends with the counters of every entry at 0,
  -- keeps the entries and their order, gives the lock back, and returns the length as an `int`.
  pub my_write-cleared :
      (len : ℕ)
      → Ends (λ ret s'. IsNet s' (cleared xs) × (ret ≡ signed32 (u32 len))) (my_write fuel len s)
  unfolding my_write spin_lock spin_unlock
  my_write-cleared len =
      let t = record s { locked = true } in
      simp is.unlocked (
        Ends-bind _ _ (clear fuel s.root t) _
          (clear-ClearedIn fuel s.root t xs is.list.first is.list.chain enough)
          λ _ s' c. (
            record {
              list = record {
                chain = c.0;
                nonempty = λ e. is.list.nonempty (cleared-nil xs e);
                first = c.2 ∙ is.list.first ∙ sym (head-cleared xs);
                final = c.3 ∙ is.list.final ∙ sym (last-cleared xs);
              };
              unlocked = refl;
              cached = c.4 ∙ is.cached;
            },
            refl,
          ))
