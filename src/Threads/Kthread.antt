-- ===== src/Threads/Kthread.antt =====
-- kernel_thread.c, which makes a thread, stops it before it has run, and wakes it. What
-- `wake_up_process` wakes is a parameter.
use kernel_modules_playgroun.Prelude.{
  Bool, Bool-cases, inl, inr, if◌then◌else◌, ◌≡◌, refl, Option, none, some, ℤ, pos,
}
use kernel_modules_playgroun.Lifecycle.Resources.{Pointer, valid, error_pointer}

-- A thread waits to be woken, in the state that `kthread_create` or `set_task_state` has given it,
-- or has run: its function prints a line and returns, which is the end of the thread.
pub data Thread : Type 0 where
  uninterruptible stopped ran : Thread

-- How `kthread_stop` comes out: it returns, it uses the `struct task_struct` of a thread that has
-- ended, or it waits for ever for one that is not woken.
pub data Stop : Type 0 where
  returned stale waiting : Stop

-- `thread1`, where `none` is NULL or an error pointer.
abbrev Thread1 : Type 0
Thread1 = Option Thread

-- What `kthread_create` answers; it is never NULL.
abbrev kthread_create : Pointer → Thread1
kthread_create valid = some uninterruptible
kthread_create _ = none

-- A crash is `none`; the assignment of the state stands before the test for NULL.
abbrev set_task_state : Thread → Thread1 → Option Thread
set_task_state state none = none
set_task_state state (some t) = some state

module _ (wakes : Thread → Bool) where
  abbrev wake_up_process : Thread → Thread
  wake_up_process t = if wakes t then ran else t

  abbrev woken : Option Thread → Option (Thread × ℤ)
  woken none = none
  woken (some t) = some (wake_up_process t, pos 0)

  unfoldable pub thread_init : Pointer → Option (Thread × ℤ)
  thread_init answer = woken (set_task_state stopped (kthread_create answer))

  abbrev kthread_stop : Thread → Stop
  kthread_stop ran = stale
  kthread_stop t = if wakes t then returned else waiting

  unfoldable pub thread_exit : Thread → Stop
  thread_exit thread1 = kthread_stop thread1

-- If the thread can be made, the init returns 0, and no `rmmod` behind it is right: where
-- `wake_up_process` wakes a stopped thread, the exit uses a thread that has ended, and where it does
-- not, the thread never runs and the exit waits for ever. If the thread cannot be made, the init
-- crashes.
pub thread_exit-thread_init :
    (wakes : Thread → Bool)
    → (thread_init wakes error_pointer ≡ none)
      × ((t : Thread) × (thread_init wakes valid ≡ some (t, pos 0))
          × (thread_exit wakes t ≡ (if wakes stopped then stale else waiting)))
unfolding thread_init thread_exit
thread_exit-thread_init wakes = (
  refl,
  elim (Bool-cases (wakes stopped)) [
    | inl wakened ↦ (ran, rw wakened refl, rw wakened refl)
    | inr asleep ↦ (stopped, rw asleep refl, rw asleep refl)
  ],
)
