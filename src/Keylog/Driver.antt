-- ===== src/Keylog/Driver.antt =====
-- The globals and the functions of keyboard_interrupt_misc_device.c.
use kernel_modules_playgroun.Prelude.{
  ℕ, ◌+◌, Bool, true, false, ◌==◌, ◌&&◌, ◌||◌, if◌then◌else◌, List, [], ◌∷◌, ℤ, pos, negsuc, efault,
  u8, u32, u64, sign_extend, signed32, zero, suc,
}

-- `struct my_device`
pub record MyDevice : Type 0 where
  pub data_port : ℕ
  pub status_port : ℕ

-- `enum intr_cause`, and any other number that the register may hold
pub data IntrCause : Type 0 where
  no_event incoming_data out_of_band erroneous : IntrCause

pub data IrqReturn : Type 0 where
  irq_none irq_handled : IrqReturn

-- The globals; `keys` and `intr_registered` are patterns of `int`. Beside them stand the kernel's
-- memory by address, the blocks that the module has allocated and not freed, the pointers that it
-- has handed to `kfree`, the latest first, the registrations of the handler, the counter of
-- `kbd_complete`, and whether `key_wait` has been woken since `keys` last changed.
pub record Keylog : Type 0 where
  pub kbuf : ℕ
  pub keys : ℕ
  pub device : MyDevice
  pub intr_registered : ℕ
  pub memory : ℕ → ℕ
  pub blocks : List (ℕ × ℕ)
  pub freed : List ℕ
  pub handlers : ℕ
  pub completions : ℕ
  pub woken : Bool
  pub registered : Bool

unfoldable pub testirq_read_intr_cause_register : MyDevice → IntrCause
testirq_read_intr_cause_register device = incoming_data

abbrev pub poke : (ℕ → ℕ) → ℕ → ℕ → ℕ → ℕ
poke m a v b = if b == a then v else m b

-- The address of `kbuf[keys]`.
abbrev pub slot : Keylog → ℕ
slot s = u64 (s.kbuf + sign_extend s.keys)

-- `kbuf[keys--] = (char)scancode; if (keys == 0) wake_up_interruptible(&key_wait);`
unfoldable pub log_key : ℕ → Keylog → Keylog
log_key scancode s =
    let keys = u32 (s.keys + 4294967295) in
    record s {
      memory = poke s.memory (slot s) scancode;
      keys = keys;
      woken = if keys == 0 then true else false;
    }

-- `testirq_handler`; `inb` is what the ports hold at this interrupt.
unfoldable pub testirq_handler : (ℕ → ℕ) → Keylog → Keylog × IrqReturn
unfolding testirq_read_intr_cause_register
testirq_handler inb s = elim (testirq_read_intr_cause_register s.device) [
  | no_event ↦ (s, irq_none)
  | incoming_data ↦
      let scancode = u8 (inb s.device.data_port) in
      (if s.kbuf == 0 then s else log_key scancode s, irq_handled)
  | out_of_band ↦ (s, irq_handled)
  | erroneous ↦ (s, irq_none)
]

-- `keylog_open`; the argument says whether `request_irq` succeeds.
unfoldable pub keylog_open : Bool → Keylog → Keylog × ℤ
keylog_open granted s =
    let t = record s {
      device = record { data_port = 0x60; status_port = 0x64 };
      handlers = if granted then s.handlers + 1 else s.handlers;
    } in
    (record t { intr_registered = u32 (t.intr_registered + 1); completions = 0 }, pos 0)

abbrev pub pred : ℕ → ℕ
pred zero = 0
pred (suc n) = n

-- `keylog_close`
unfoldable pub keylog_close : Keylog → Keylog × ℤ
keylog_close s = (
  record s {
    handlers = pred s.handlers;
    intr_registered = u32 (s.intr_registered + 4294967295);
    completions = s.completions + 1;
  },
  pos 0,
)

-- `keylog_read` up to the wait; `block` is what `kmalloc` returns, 0 if there is no memory.
unfoldable pub read_start : (block len : ℕ) → Keylog → Keylog
read_start block len s = record s {
  kbuf = block;
  keys = u32 len;
  blocks = if block == 0 then s.blocks else (block, len) ∷ s.blocks;
  woken = false;
}

-- The condition of `wait_event_interruptible`.
unfoldable pub keys_logged : Keylog → Bool
keys_logged s = s.keys == 0

-- Whether `wait_event_interruptible` ends without a signal: the condition holds when the wait
-- begins, or it holds and `key_wait` has been woken since.
unfoldable pub wakes : (begun waiting : Keylog) → Bool
unfolding keys_logged
wakes begun waiting = keys_logged begun || (waiting.woken && keys_logged waiting)

abbrev pub remove_block : ℕ → List (ℕ × ℕ) → List (ℕ × ℕ)
remove_block p [] = []
remove_block p ((q, n) ∷ bs) = if q == p then bs else (q, n) ∷ remove_block p bs

-- The bytes from an address on.
abbrev pub bytes_at : (ℕ → ℕ) → ℕ → ℕ → List ℕ
bytes_at m a zero = []
bytes_at m a (suc n) = m a ∷ bytes_at m (a + 1) n

-- What a read returns, and what it has put into the user's buffer.
pub record Reply : Type 0 where
  pub ret : ℤ
  pub copied : List ℕ
  pub off : ℕ

abbrev pub is_zero : ℤ → Bool
is_zero (pos n) = n == 0
is_zero (negsuc n) = false

-- `keylog_read` behind the wait; `ret` is the result of the wait, and `uncopied` that of
-- `copy_to_user`, of whose bytes a failed read is not taken to promise any.
unfoldable pub read_finish : (ret : ℤ) (uncopied len off : ℕ) → Keylog → Keylog × Reply
read_finish ret uncopied len off s =
    if is_zero ret
    then (if uncopied == 0
        then (
          record s { blocks = remove_block s.kbuf s.blocks; freed = s.kbuf ∷ s.freed },
          record {
            ret = signed32 (u32 len);
            copied = bytes_at s.memory s.kbuf len;
            off = u64 (off + len);
          },
        )
        else (s, record { ret = efault; copied = []; off = off }))
    else (s, record { ret = ret; copied = []; off = off })

-- `keylog_driver_init`; the argument is the result of `misc_register`.
unfoldable pub keylog_driver_init : ℤ → Keylog → Keylog × ℤ
keylog_driver_init ret s = (record s { registered = is_zero ret }, ret)

-- `keylog_driver_exit`: it sleeps in `wait_for_completion`, or takes one completion and goes on.
pub data Exit : Type 0 where
  sleeps : Exit
  leaves : Keylog → Exit

unfoldable pub keylog_driver_exit : Keylog → Exit
keylog_driver_exit s =
    if s.intr_registered == 0
    then leaves (record s { registered = false })
    else if s.completions == 0
    then sleeps
    else leaves (record s { completions = pred s.completions; registered = false })
