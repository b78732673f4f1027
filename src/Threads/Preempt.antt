-- ===== src/Threads/Preempt.antt =====
-- preempt_schedule.c, which gives up the processor where it must not.
use kernel_modules_playgroun.Prelude.{
  ℕ, suc, zero, Bool, true, false, Bool-cases, inl, inr, if◌then◌else◌, ◌≡◌, refl, Option, none,
  some,
}

-- The processor: how often preemption is disabled, whether interrupts are, whether `my_lock` is
-- taken, and how often it was given up in atomic context.
pub record Cpu : Type 0 where
  pub preempt_count : ℕ
  pub irqs_disabled : Bool
  pub my_lock : Bool
  pub scheduled_while_atomic : ℕ

abbrev preempt_disable : Cpu → Cpu
preempt_disable c = record c { preempt_count = suc c.preempt_count }

abbrev less_one : ℕ → ℕ
less_one zero = zero
less_one (suc n) = n

abbrev preempt_enable : Cpu → Cpu
preempt_enable c = record c { preempt_count = less_one c.preempt_count }

-- `schedule` reports a bug where preemption is disabled.
abbrev reports : ℕ → ℕ → ℕ
reports zero n = n
reports (suc count) n = suc n

abbrev schedule : Cpu → Cpu
schedule c = record c { scheduled_while_atomic = reports c.preempt_count c.scheduled_while_atomic }

-- `none` is a processor that spins for ever, since the lock is not let go.
abbrev spin_lock_irq : Cpu → Option Cpu
spin_lock_irq c =
    let d = preempt_disable (record c { irqs_disabled = true }) in
    if d.my_lock then none else some (record d { my_lock = true })

abbrev spin_unlock_irq : Cpu → Cpu
spin_unlock_irq c = preempt_enable (record c { my_lock = false; irqs_disabled = false })

abbrev and_then : Option Cpu → (Cpu → Cpu) → Option Cpu
and_then none k = none
and_then (some c) k = some (k c)

unfoldable pub my_func : Cpu → Option Cpu
my_func c =
    let d = preempt_enable (schedule (preempt_disable c)) in
    and_then (spin_lock_irq d) (λ e. spin_unlock_irq (schedule e))

unfoldable pub init_func : Cpu → Option Cpu
init_func c = my_func c

-- Wherever it is called with its lock free, the init comes to its end, gives up the processor twice,
-- both times in atomic context, lets the lock go and leaves preemption as it was, but turns
-- interrupts on, also where they were off. With its lock taken it spins.
pub init_func-atomic :
    (c : Cpu)
    → init_func c ≡ (
        if c.my_lock
        then none
        else some (record c {
          irqs_disabled = false;
          scheduled_while_atomic = suc (suc c.scheduled_while_atomic);
        }))
unfolding init_func my_func
init_func-atomic c = elim (Bool-cases c.my_lock) [
  | inl taken ↦ rw taken refl
  | inr unlocked ↦ rw unlocked refl
]
