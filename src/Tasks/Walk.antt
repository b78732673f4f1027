-- ===== src/Tasks/Walk.antt =====
-- The walk of thread_tree.c comes to each task once.
use kernel_modules_playgroun.Prelude.{
  and-true, ℕ, zero, suc, ◌<◌, Bool, true, false, ◌&&◌, Bool-cases, ◌==◌, ==_refl, if◌then◌else◌,
  ◌≡◌, refl, ap, ap₂, ◌∙◌, inl, inr, Option, none, some, List, [], ◌∷◌, ◌++◌, map, length, arith,
}
use kernel_modules_playgroun.Lifecycle.Resources.{valid}
use kernel_modules_playgroun.Tasks.Tree.{
  Name, Task, Files, Line, process, kernel_thread, user_thread, child, inode_lines, thread_lines,
  child_lines, head_lines, visit, around, and_lines, walk, hello_init,
}

-- What lines say of one kind: the processes shown, whether each is a user's, the children listed.
module _ {A : Type 0} where
  abbrev pub cons_some : Option A → List A → List A
  cons_some none xs = xs
  cons_some (some x) xs = x ∷ xs

  abbrev pub keep : (Line → Option A) → List Line → List A
  keep f [] = []
  keep f (x ∷ lines) = cons_some (f x) (keep f lines)

  cons_some-append : (o : Option A) (a b : List A) → cons_some o (a ++ b) ≡ cons_some o a ++ b
  cons_some-append none a b = refl
  cons_some-append (some x) a b = refl

  keep-append : (f : Line → Option A) (a b : List Line) → keep f (a ++ b) ≡ keep f a ++ keep f b
  keep-append f [] b = refl
  keep-append f (x ∷ a) b =
      ap (cons_some (f x)) (keep-append f a b) ∙ cons_some-append (f x) (keep f a) (keep f b)

abbrev pub a_process : Line → Option Name
a_process (process name n) = some name
a_process _ = none

abbrev pub a_user : Line → Option Bool
a_user user_thread = some true
a_user kernel_thread = some false
a_user _ = none

abbrev pub a_child : Line → Option Name
a_child (child name) = some name
a_child _ = none

-- A task with an address space has its files.
abbrev pub has_files : Bool → Option Files → Bool
has_files true none = false
has_files _ _ = true

keep-children :
    (xs : List Name)
    → (keep a_process (map child xs) ≡ [])
      × (keep a_user (map child xs) ≡ [])
      × (keep a_child (map child xs) ≡ xs)
keep-children [] = (refl, refl, refl)
keep-children (x ∷ xs) = let (p, u, c) = keep-children xs in (p, u, ap (λ ys. x ∷ ys) c)

-- What the lines say of tasks.
abbrev pub Says : List Name → List Bool → List Name → List Line → Type 0
Says names mms children lines =
    (keep a_process lines ≡ names) × (keep a_user lines ≡ mms) × (keep a_child lines ≡ children)

Says-append :
    (n m : List Name) (u v : List Bool) (c d : List Name) (a b : List Line)
    → Says n u c a
    → Says m v d b
    → Says (n ++ m) (u ++ v) (c ++ d) (a ++ b)
Says-append n m u v c d a b (p, q, r) (x, y, z) = (
  keep-append a_process a b ∙ ap₂ (λ s t. s ++ t) p x,
  keep-append a_user a b ∙ ap₂ (λ s t. s ++ t) q y,
  keep-append a_child a b ∙ ap₂ (λ s t. s ++ t) r z,
)

inode_lines-Says : (i j : Option ℕ) → Says [] [] [] (inode_lines i j)
inode_lines-Says none j = (refl, refl, refl)
inode_lines-Says (some i) none = (refl, refl, refl)
inode_lines-Says (some i) (some j) = (refl, refl, refl)

abbrev pub kthreadd_children : Task → List Name
kthreadd_children task = if task.name.pid == 2 then task.children else []

child_lines-Says : (task : Task) → Says [] [] (kthreadd_children task) (child_lines task)
unfolding child_lines
child_lines-Says task = elim (Bool-cases (task.name.pid == 2)) [
  | inl kthreadd ↦ rw kthreadd (keep-children task.children)
  | inr other ↦ rw other (refl, refl, refl)
]

-- A run that ends with such lines.
abbrev pub Shows : List Name → List Bool → List Name → Option (List Line) → Type 0
Shows names mms children r = (lines : List Line) × (r ≡ some lines) × Says names mms children lines

thread_lines-Shows :
    (mm : Bool) (files : Option Files)
    → has_files mm files ≡ true
    → Shows [] (mm ∷ []) [] (thread_lines mm files)
unfolding thread_lines
thread_lines-Shows false files w = (kernel_thread ∷ [], refl, (refl, refl, refl))
thread_lines-Shows true none w = absurd (ground arith)
thread_lines-Shows true (some f) w =
    let rest = inode_lines f.fd_array f.fd_list in
    let (p, u, c) = inode_lines-Says f.fd_array f.fd_list in
    (user_thread ∷ rest, refl, (p, ap (λ v. true ∷ v) u, c))

visit-Shows :
    (task : Task)
    → has_files task.mm task.files ≡ true
    → Shows (task.name ∷ []) (task.mm ∷ []) (kthreadd_children task) (visit task)
unfolding visit
visit-Shows task w =
    let (lines, e, s) = thread_lines-Shows task.mm task.files w in
    let behind =
      Says-append [] [] (task.mm ∷ []) [] [] (kthreadd_children task) lines (child_lines task) s
        (child_lines-Says task) in
    (
      head_lines task ++ lines ++ child_lines task,
      ap (λ r. around (head_lines task) r (child_lines task)) e,
      Says-append (task.name ∷ []) [] [] (task.mm ∷ []) [] (kthreadd_children task)
          (head_lines task) (lines ++ child_lines task) (refl, refl, refl) behind,
    )

abbrev pub all_files : List Task → Bool
all_files [] = true
all_files (t ∷ ts) = has_files t.mm t.files && all_files ts

abbrev pub all_children : List Task → List Name
all_children [] = []
all_children (t ∷ ts) = kthreadd_children t ++ all_children ts

abbrev pub Walked : List Task → Option (List Line) → Type 0
Walked ts = Shows (map Task.name ts) (map Task.mm ts) (all_children ts)

Walked-cons :
    (t : Task) (ts : List Task) (v r : Option (List Line))
    → Shows (t.name ∷ []) (t.mm ∷ []) (kthreadd_children t) v
    → Walked ts r
    → Walked (t ∷ ts) (and_lines v r)
Walked-cons t ts v r (a, e, s) (b, f, q) = (
  a ++ b,
  ap₂ and_lines e f,
  Says-append (t.name ∷ []) (map Task.name ts) (t.mm ∷ []) (map Task.mm ts) (kthreadd_children t)
      (all_children ts) a b s q,
)

module _ (next_task : ℕ → ℕ) (task_at : ℕ → Task) (init_task : ℕ) where
  -- From `p` on `next_task` leads over the tasks `ps` back to `init_task`, which is none of them.
  abbrev pub Leads : ℕ → List ℕ → Type 0
  Leads p [] = next_task p ≡ init_task
  Leads p (q ∷ ps) = (next_task p ≡ q) × ((q == init_task) ≡ false) × Leads q ps

  walk-Walked :
      (n : ℕ) (p : ℕ) (ps : List ℕ)
      → length ps < n
      → Leads p ps
      → all_files (map task_at (p ∷ ps)) ≡ true
      → Walked (map task_at (p ∷ ps)) (walk next_task task_at init_task n p)
  unfolding walk
  walk-Walked zero p ps l r w = absurd (omega (arith, l))
  walk-Walked (suc n) p [] l r w =
      let one = (and-true (has_files (task_at p).mm (task_at p).files) true w).0 in
      rw (r, ==_refl)
        (Walked-cons (task_at p) [] (visit (task_at p)) (some []) (visit-Shows (task_at p) one)
          ([], refl, (refl, refl, refl)))
  walk-Walked (suc n) p (q ∷ ps) l (e, other, r) w =
      let (one, more) =
        and-true (has_files (task_at p).mm (task_at p).files) (all_files (map task_at (q ∷ ps)))
          w in
      rw (e, other)
        (Walked-cons (task_at p) (map task_at (q ∷ ps)) (visit (task_at p))
          (walk next_task task_at init_task n q) (visit-Shows (task_at p) one)
          (walk-Walked n q ps (omega (arith, l)) r more))

-- If `kthread_create` answers a task, the tasks form a ring of which `init_task` is one, and each
-- task with an address space has its files, the init ends without a crash as soon as the fuel is
-- more than the other tasks: it shows each task once, in their order and `init_task` first, says of
-- each whether it is a user's, and lists the children of the task with the number 2 and no others.
pub hello_init-Walked :
    (next_task : ℕ → ℕ) (task_at : ℕ → Task) (init_task : ℕ) (ps : List ℕ) (fuel : ℕ)
    → length ps < fuel
    → Leads next_task task_at init_task init_task ps
    → all_files (map task_at (init_task ∷ ps)) ≡ true
    → Walked (map task_at (init_task ∷ ps)) (hello_init next_task task_at init_task fuel valid)
unfolding hello_init
hello_init-Walked next_task task_at init_task ps fuel enough ring files =
    walk-Walked next_task task_at init_task fuel init_task ps enough ring files
