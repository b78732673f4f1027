-- ===== src/Threads/Examples.antt =====
-- A processor in a module's init, and a kernel that wakes sleeping threads only.
use kernel_modules_playgroun.Prelude.{Bool, true, false, ◌≡◌, none, some, pos}
use kernel_modules_playgroun.Lifecycle.Resources.{valid, error_pointer}
use kernel_modules_playgroun.Threads.Preempt.{Cpu, init_func, init_func-atomic}
use kernel_modules_playgroun.Threads.Kthread.{
  Thread, uninterruptible, waiting, thread_init, thread_exit, thread_exit-thread_init,
}

abbrev cpu : Cpu
cpu = record {
  preempt_count = 0;
  irqs_disabled = false;
  my_lock = false;
  scheduled_while_atomic = 0;
}

init_func-atomic_test : init_func cpu ≡ some (record cpu { scheduled_while_atomic = 2 })
init_func-atomic_test = init_func-atomic cpu

abbrev wakes : Thread → Bool
wakes uninterruptible = true
wakes _ = false

thread_exit-thread_init_test :
    (thread_init wakes error_pointer ≡ none)
    × ((t : Thread) × (thread_init wakes valid ≡ some (t, pos 0)) × (thread_exit wakes t ≡ waiting))
thread_exit-thread_init_test = thread_exit-thread_init wakes
