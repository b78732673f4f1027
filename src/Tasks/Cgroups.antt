-- ===== src/Tasks/Cgroups.antt =====
-- The init function of cgroups_iterate.c. The number of subsystems is a parameter, as it is of the
-- kernel's configuration.
use kernel_modules_playgroun.Prelude.{
  ℕ, zero, suc, Option, none, some, List, [], ◌∷◌, ◌++◌, map, ℤ, pos, enomem,
}
use kernel_modules_playgroun.Prelude.Bytes.{Text}
use kernel_modules_playgroun.Tasks.Tree.{Name}

-- `struct cgroup_subsys_state`: the name of its subsystem, and the reference count of its cgroup,
-- where `none` is NULL.
pub record Css : Type 0 where
  pub ss_name : Text
  pub cgroup : Option ℕ

-- `struct css_set`; `tasks` are those on its list.
pub record CssSet : Type 0 where
  pub refcount : ℕ
  pub tasks : List Name
  pub subsys : ℕ → Option Css

pub data Line : Type 0 where
  working_for : Name → Line
  number_of_tasks : ℕ → Line
  part_of : Name → Line
  subsystems : ℕ → Line
  reference_count : Text → ℕ → Line
  no_cgroup : Line

-- The lines and the result; `none` is a crash.
abbrev pub Outcome : Type 0
Outcome = Option (List Line × ℤ)

abbrev pub behind_lines : List Line → Outcome → Outcome
behind_lines lines none = none
behind_lines lines (some (rest, ret)) = some (lines ++ rest, ret)

-- The while loop, with `remaining` rounds to go at `count`.
unfoldable pub each_subsys : (ℕ → Option Css) → ℕ → ℕ → Outcome
each_subsys subsys zero count = some ([], pos 0)
each_subsys subsys (suc remaining) count = elim (subsys count) [
  | none ↦ none
  | some css ↦ elim css.cgroup [
    | none ↦ some (no_cgroup ∷ [], enomem)
    | some refcnt ↦
        behind_lines (reference_count css.ss_name refcnt ∷ [])
          (each_subsys subsys remaining (suc count))
  ]
]

unfoldable pub my_cgroup_init : ℕ → Name → CssSet → Outcome
my_cgroup_init subsys_count current my_css_set =
    behind_lines
      (working_for current ∷ number_of_tasks my_css_set.refcount ∷ map part_of my_css_set.tasks
        ++ subsystems subsys_count ∷ [])
      (each_subsys my_css_set.subsys subsys_count 0)
