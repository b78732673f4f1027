-- ===== src/SeqFile/Driver.antt =====
-- The seq_file operations of seq_file_procfs.c.
use kernel_modules_playgroun.Prelude.{
  ℕ, zero, suc, ◌==◌, if◌then◌else◌, List, [], ◌∷◌, ◌++◌, length, get_or,
}
use kernel_modules_playgroun.Prelude.Bytes.{Text}
use kernel_modules_playgroun.Simacc.Driver.{decimal}

-- `struct task_struct`, as far as it is shown.
pub record Task : Type 0 where
  pub pid : ℕ
  pub comm : Text

-- The circular list that `tasks` links, from the current task on. A `struct list_head *` is a
-- position in it.
pub record Tasks : Type 0 where
  pub current : Task
  pub others : List Task

abbrev pub ring : Tasks → List Task
ring ts = ts.current ∷ ts.others

-- `p->next`
abbrev pub next : Tasks → ℕ → ℕ
next ts p = if suc p == length (ring ts) then 0 else suc p

-- `container_of`
abbrev pub task_at : Tasks → ℕ → Task
task_at ts p = get_or (ring ts) p ts.current

unfoldable pub my_start : Tasks → ℕ → ℕ
my_start ts pos = 0

unfoldable pub my_next : Tasks → ℕ → ℕ → ℕ
my_next ts v pos = next ts v

-- `seq_printf(s, "%u\t:\t%s\n", task->pid, task->comm)`
abbrev pub line : Task → Text
line t = decimal t.pid ++ (9 ∷ 58 ∷ 9 ∷ []) ++ t.comm ++ 10 ∷ []

unfoldable pub my_show : Tasks → ℕ → Text
my_show ts v = line (task_at ts (next ts v))

-- The first `n` records that seq_file prints from `v`, which stands at position `pos`, and where it
-- is then: it never meets the end of the list.
unfoldable pub records : ℕ → Tasks → ℕ → ℕ → List Text × ℕ
records zero ts v pos = ([], v)
records (suc n) ts v pos =
    let rest = records n ts (my_next ts v pos) (suc pos) in (my_show ts v ∷ rest.0, rest.1)
