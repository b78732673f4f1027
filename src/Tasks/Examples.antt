-- ===== src/Tasks/Examples.antt =====
-- Four tasks in a ring, and a set of three control groups.
use kernel_modules_playgroun.Prelude.{
  ℕ, zero, suc, ◌<◌, true, false, ◌≡◌, refl, none, some, [], ◌∷◌, ◌++◌, ◌==◌, if◌then◌else◌, enomem,
  arith,
}
use kernel_modules_playgroun.Prelude.Bytes.{Text, text}
use kernel_modules_playgroun.Lifecycle.Resources.{valid}
use kernel_modules_playgroun.Tasks.Tree.{Task, hello_init}
use kernel_modules_playgroun.Tasks.Walk.{Walked, hello_init-Walked}
use kernel_modules_playgroun.Tasks.Cgroups.{CssSet, no_cgroup, my_cgroup_init}
use kernel_modules_playgroun.Tasks.Subsystems.{counts, heading, my_cgroup_init_lem}

abbrev swapper : Task
swapper = record {
  name = record { pid = 0; comm = text "swapper" };
  stack = 4096;
  owner = record { pid = 0; comm = text "swapper" };
  threads = 1;
  pcount = 9;
  run_delay = 0;
  last_arrival = 0;
  last_queued = 0;
  timeout = 0;
  mm = false;
  files = none;
  children = record { pid = 1; comm = text "init" } ∷ [];
}

abbrev init : Task
init = record swapper {
  name = record { pid = 1; comm = text "init" };
  mm = true;
  files = some (record { fd_array = some 40; fd_list = some 40 });
  children = [];
}

abbrev kthreadd : Task
kthreadd = record swapper {
  name = record { pid = 2; comm = text "kthreadd" };
  children = record { pid = 3; comm = text "ksoftirqd" } ∷ [];
}

abbrev next_task : ℕ → ℕ
next_task p = if p == 64 then 128 else if p == 128 then 192 else 64

abbrev task_at : ℕ → Task
task_at p = if p == 64 then swapper else if p == 128 then init else kthreadd

hello_init-Walked_example :
    Walked (swapper ∷ init ∷ kthreadd ∷ []) (hello_init next_task task_at 64 3 valid)
hello_init-Walked_example =
    hello_init-Walked next_task task_at 64 (128 ∷ 192 ∷ []) 3 (omega arith)
      (refl, refl, (refl, refl, refl)) refl

-- The second of three has no cgroup.
abbrev css_set : CssSet
css_set = record {
  refcount = 2;
  tasks = record { pid = 1; comm = text "init" } ∷ [];
  subsys = λ i. elim i [
    | zero ↦ some (record { ss_name = text "cpu"; cgroup = some 7 })
    | suc j ↦ some (record { ss_name = text "memory"; cgroup = none })
  ];
}

abbrev cpu : ℕ → Text
cpu i = text "cpu"

present : (i : ℕ) → i < 1 → css_set.subsys i ≡ some (record { ss_name = cpu i; cgroup = some 7 })
present zero l = refl
present (suc i) l = absurd (omega (arith, l))

my_cgroup_init_lem_test :
    my_cgroup_init 3 kthreadd.name css_set
    ≡ some (heading 3 kthreadd.name css_set ++ (counts cpu (λ _. 7) 1 0 ++ no_cgroup ∷ []), enomem)
my_cgroup_init_lem_test =
    my_cgroup_init_lem 3 1 kthreadd.name css_set cpu (λ _. 7) (text "memory") (omega arith) present
      (λ _. refl)
