-- ===== src/Tasks/Tree.antt =====
-- The init function of thread_tree.c. What `kthread_create` answers and the list of tasks are
-- parameters.
use kernel_modules_playgroun.Prelude.{
  ℕ, zero, suc, Bool, true, false, ◌==◌, if◌then◌else◌, Option, none, some, List, [], ◌∷◌, ◌++◌,
  map,
}
use kernel_modules_playgroun.Prelude.Bytes.{Text}
use kernel_modules_playgroun.Lifecycle.Resources.{Pointer, valid}

-- `struct file` by the number of its inode; `struct files_struct` by `fd_array[0]` and `fdt->fd[0]`,
-- where `none` is NULL.
pub record Files : Type 0 where
  pub fd_array : Option ℕ
  pub fd_list : Option ℕ

-- What a line says of a task: `pid`, `comm`.
pub record Name : Type 0 where
  pub pid : ℕ
  pub comm : Text

-- `struct task_struct`, as far as it is read; `owner` is the task of the `struct thread_info` at
-- `stack`, and `mm` says whether there is an address space.
pub record Task : Type 0 where
  pub name : Name
  pub stack : ℕ
  pub owner : Name
  pub threads : ℕ
  pub pcount : ℕ
  pub run_delay : ℕ
  pub last_arrival : ℕ
  pub last_queued : ℕ
  pub timeout : ℕ
  pub mm : Bool
  pub files : Option Files
  pub children : List Name

pub data Line : Type 0 where
  first_check : ℕ → Line
  check : Name → Line
  process : Name → ℕ → Line
  sched_info : ℕ → ℕ → ℕ → ℕ → Line
  timeout_of : ℕ → Line
  kernel_thread user_thread : Line
  inode : ℕ → Line
  inode2 : ℕ → Line
  child : Name → Line

abbrev pub inode_lines : Option ℕ → Option ℕ → List Line
inode_lines (some i) (some j) = inode i ∷ inode2 j ∷ []
inode_lines _ _ = []

-- By the address space and the files; `none` is a crash.
unfoldable pub thread_lines : Bool → Option Files → Option (List Line)
thread_lines false files = some (kernel_thread ∷ [])
thread_lines true none = none
thread_lines true (some files) = some (user_thread ∷ inode_lines files.fd_array files.fd_list)

unfoldable pub child_lines : Task → List Line
child_lines task = if task.name.pid == 2 then map child task.children else []

abbrev pub head_lines : Task → List Line
head_lines task =
    first_check task.stack
    ∷ check task.owner
    ∷ process task.name task.threads
    ∷ sched_info task.pcount task.run_delay task.last_arrival task.last_queued
    ∷ timeout_of task.timeout
    ∷ []

-- The body of the loop.
abbrev pub around : List Line → Option (List Line) → List Line → Option (List Line)
around before none behind = none
around before (some lines) behind = some (before ++ lines ++ behind)

unfoldable pub visit : Task → Option (List Line)
visit task = around (head_lines task) (thread_lines task.mm task.files) (child_lines task)

abbrev pub and_lines : Option (List Line) → Option (List Line) → Option (List Line)
and_lines none r = none
and_lines (some lines) none = none
and_lines (some lines) (some rest) = some (lines ++ rest)

-- `init_task` is an address; `none` is also a loop that goes on when the fuel is used up.
module _ (next_task : ℕ → ℕ) (task_at : ℕ → Task) (init_task : ℕ) where
  unfoldable pub walk : ℕ → ℕ → Option (List Line)
  walk zero task = none
  walk (suc n) task =
      let rest = walk n (next_task task) in
      and_lines (visit (task_at task)) (if next_task task == init_task then some [] else rest)

  -- `wake_up_process` crashes on a pointer that is not valid.
  abbrev pub wake_up_process : Pointer → Option (List Line) → Option (List Line)
  wake_up_process valid lines = lines
  wake_up_process _ lines = none

  unfoldable pub hello_init : ℕ → Pointer → Option (List Line)
  hello_init fuel t = wake_up_process t (walk fuel init_task)
