-- ===== src/Tasks/Subsystems.antt =====
-- How far the loop of cgroups_iterate.c goes.
use kernel_modules_playgroun.Prelude.{
  ℕ, zero, suc, ◌+◌, ◌-◌, ◌<◌, ◌≤◌, ◌≡◌, refl, sym, ap, ap₂, Bool-cases, ◌==◌, inl, inr,
  if◌then◌else◌, ◌∙◌, Option, none, some, List, [], ◌∷◌, ◌++◌, map, ℤ, pos, enomem, arith,
}
use kernel_modules_playgroun.Prelude.Bytes.{Text}
use kernel_modules_playgroun.Tasks.Tree.{Name}
use kernel_modules_playgroun.Tasks.Cgroups.{
  Css, CssSet, Line, working_for, number_of_tasks, part_of, subsystems, reference_count, no_cgroup,
  Outcome, behind_lines, each_subsys, my_cgroup_init,
}

-- The lines for the subsystems from `count` on.
abbrev pub counts : (ℕ → Text) → (ℕ → ℕ) → ℕ → ℕ → List Line
counts name refcnt zero count = []
counts name refcnt (suc n) count =
    reference_count (name count) (refcnt count) ∷ counts name refcnt n (suc count)

-- What is shown before the loop.
abbrev pub heading : ℕ → Name → CssSet → List Line
heading n current set =
    working_for current ∷ number_of_tasks set.refcount ∷ map part_of set.tasks
    ++ (subsystems n ∷ [])

behind_lines-cons :
    (x : Line) (xs : List Line) (r : Outcome)
    → behind_lines (x ∷ []) (behind_lines xs r) ≡ behind_lines (x ∷ xs) r
behind_lines-cons x xs none = refl
behind_lines-cons x xs (some (rest, ret)) = refl

behind_lines-nil : (r : Outcome) → behind_lines [] r ≡ r
behind_lines-nil none = refl
behind_lines-nil (some (rest, ret)) = refl

abbrev pub ending : ℕ → ℕ → List Line × ℤ
ending k n = if k == n then ([], pos 0) else (no_cgroup ∷ [], enomem)

-- The subsystem `i` has this name and a cgroup with this reference count.
abbrev pub css_with : (ℕ → Text) → (ℕ → ℕ) → ℕ → Css
css_with name refcnt i = record { ss_name = name i; cgroup = some (refcnt i) }

module _ (subsys : ℕ → Option Css) (name : ℕ → Text) (refcnt : ℕ → ℕ) where
  each_subsys-append :
      (k m count : ℕ)
      → ((i : ℕ) → count ≤ i → i < count + k → subsys i ≡ some (css_with name refcnt i))
      → each_subsys subsys (k + m) count
        ≡ behind_lines (counts name refcnt k count) (each_subsys subsys m (count + k))
  unfolding each_subsys
  each_subsys-append zero m count present =
      ap₂ (λ a b. each_subsys subsys a b) (omega arith) (omega arith)
      ∙ sym (behind_lines-nil (each_subsys subsys m (count + 0)))
  each_subsys-append (suc k) m count present =
      let line = reference_count (name count) (refcnt count) in
      let more : suc k + m ≡ suc (k + m) = omega arith in
      let next : suc count + k ≡ count + suc k = omega arith in
      ap (λ n. each_subsys subsys n count) more
      ∙ rw (each_subsys, present count (omega arith) (omega arith))
          (ap (behind_lines (line ∷ [])) (
              each_subsys-append k m (suc count)
                (λ i below above. present i (omega (arith, below)) (omega (arith, above)))
              ∙ ap (λ c. behind_lines (counts name refcnt k (suc count)) (each_subsys subsys m c))
                  next)
            ∙ behind_lines-cons line (counts name refcnt k (suc count))
                (each_subsys subsys m (count + suc k)))

  each_subsys-ending :
      (n k : ℕ) (lost : Text)
      → k ≤ n
      → ((i : ℕ) → i < k → subsys i ≡ some (css_with name refcnt i))
      → (k < n → subsys k ≡ some (record { ss_name = lost; cgroup = none }))
      → each_subsys subsys n 0 ≡ some (counts name refcnt k 0 ++ (ending k n).0, (ending k n).1)
  unfolding each_subsys
  each_subsys-ending n k lost le present missing =
      let below = λ (i : ℕ) (_ : 0 ≤ i) (l : i < 0 + k). present i (omega (arith, l)) in
      elim (Bool-cases (k == n)) [
        | inl all ↦
            let whole : n ≡ k + 0 = ground arith in
            ap (λ r. each_subsys subsys r 0) whole ∙ each_subsys-append k 0 0 below ∙ rw all refl
        | inr fewer ↦
            let less : k < n = ground arith in
            let rest : n ≡ k + suc (n - suc k) = omega (arith, less) in
            let next : 0 + k ≡ k = omega arith in
            ap (λ r. each_subsys subsys r 0) rest
            ∙ each_subsys-append k (suc (n - suc k)) 0 below
            ∙ rw (each_subsys, next, missing less, fewer) refl
      ]

-- If the first `k` of `n` subsystems have a cgroup, and the next, should there be one, has none,
-- then the init ends without a crash: it shows the tasks of the set and a line for each of the `k`,
-- in order, and returns 0 if they were all, else -ENOMEM.
pub my_cgroup_init_lem :
    (n k : ℕ) (current : Name) (set : CssSet) (name : ℕ → Text) (refcnt : ℕ → ℕ) (lost : Text)
    → k ≤ n
    → ((i : ℕ) → i < k → set.subsys i ≡ some (css_with name refcnt i))
    → (k < n → set.subsys k ≡ some (record { ss_name = lost; cgroup = none }))
    → my_cgroup_init n current set
      ≡ some (heading n current set ++ (counts name refcnt k 0 ++ (ending k n).0), (ending k n).1)
unfolding my_cgroup_init
my_cgroup_init_lem n k current set name refcnt lost le present missing =
    ap (behind_lines (heading n current set))
      (each_subsys-ending set.subsys name refcnt n k lost le present missing)
