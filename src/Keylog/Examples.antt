-- ===== src/Keylog/Examples.antt =====
-- Concrete runs of keyboard_interrupt_misc_device.c.
use kernel_modules_playgroun.Prelude.{
  ℕ, ◌+◌, ◌*◌, ◌<◌, ◌≤◌, ◌≡◌, ◌≢◌, ◌↔◌, ◌⊎◌, refl, true, false, ◌==◌, if◌then◌else◌, List, [], ◌∷◌,
  reverse, arith, pos, u8, u32,
}
use kernel_modules_playgroun.Keylog.Driver.{
  keylog_driver_init, Keylog, testirq_handler, read_start, keys_logged, wakes, bytes_at,
  read_finish, sleeps, keylog_driver_exit,
}
use kernel_modules_playgroun.Keylog.Keys.{
  Ports, calls, interrupts, codes, interrupts-keys_logged, read_finish-copied,
}
use kernel_modules_playgroun.Keylog.Readers.{
  keys_logged-missed, read_finish-stale, read_start-read_start,
}
use kernel_modules_playgroun.Keylog.Exit.{
  Use, opened, closed, uses, opens, closes, completed, keylog_driver_exit-sleeps, Left,
  keylog_driver_exit-Left,
}

-- Every byte of memory holds 7; one file is open.
abbrev idle : Keylog
idle = record {
  kbuf = 0;
  keys = 0;
  device = record { data_port = 0x60; status_port = 0x64 };
  intr_registered = 0;
  memory = λ a. 7;
  blocks = [];
  freed = [];
  handlers = 1;
  completions = 0;
  woken = false;
  registered = true;
}

-- The ports when a key has been pressed.
abbrev key : ℕ → Ports
key code port = if port == 0x60 then code else 0

abbrev three_keys : List Ports
three_keys = key 30 ∷ key 48 ∷ key 46 ∷ []

interrupts-keys_logged_example :
    let s' = interrupts three_keys (read_start 4096 3 idle) in
    (wakes (read_start 4096 3 idle) s' ≡ true)
    × (keys_logged s' ≡ true)
    × (bytes_at s'.memory 4097 3 ≡ reverse (codes 0x60 three_keys))
    × ((a : ℕ) → (a ≤ 4096) ⊎ (4099 < a) → s'.memory a ≡ 7)
interrupts-keys_logged_example =
    interrupts-keys_logged 4096 3 idle (λ e. absurd (omega arith)) (omega arith) (omega arith)
      three_keys refl

read_finish-copied_test :
    let s' = calls three_keys (read_start 4096 3 idle) in
    (read_finish (pos 0) 0 3 0 s').1.copied ≡ 7 ∷ reverse (codes 0x60 (key 48 ∷ key 46 ∷ []))
read_finish-copied_test =
    read_finish-copied 4096 3 idle (λ e. absurd (omega arith)) (omega arith) (omega arith) (key 30)
      (key 48 ∷ key 46 ∷ []) 0 refl

keys_logged-missed_test : keys_logged (calls three_keys (read_start 4096 2 idle)) ≡ false
keys_logged-missed_test =
    keys_logged-missed three_keys 4096 2 idle (λ e. absurd (omega arith)) (omega arith)
      (omega arith) (omega arith)

-- A read of one byte is about to be answered.
abbrev answered : Keylog
answered = record idle { kbuf = 4096; blocks = (4096, 1) ∷ [] }

read_finish-stale_test :
    let s' = (read_finish (pos 0) 0 1 0 answered).0 in
    (s'.blocks ≡ [])
    × ((testirq_handler (key 30) s').0.memory 4096 ≡ u8 30)
    × ((testirq_handler (key 30) s').0.keys ≡ 4294967295)
read_finish-stale_test =
    read_finish-stale 4096 1 0 answered [] (key 30)
      (refl, refl, (λ e. absurd (omega arith)), omega arith, omega arith) refl

abbrev closed_device : Keylog
closed_device = record idle { handlers = 0 }

abbrev two_open_one_close : List Use
two_open_one_close = opened true ∷ closed ∷ opened true ∷ []

keylog_driver_exit-sleeps_test :
    (keylog_driver_exit (uses two_open_one_close closed_device) ≡ sleeps) ↔ (
      (u32 (opens two_open_one_close + closes two_open_one_close * 4294967295) ≢ 0)
      × (completed two_open_one_close false ≡ false))
keylog_driver_exit-sleeps_test =
    keylog_driver_exit-sleeps two_open_one_close closed_device refl refl

keylog_driver_init_test : (keylog_driver_init (pos 0) idle).1 ≡ pos 0
unfolding keylog_driver_init
keylog_driver_init_test = refl

-- A second reader of the same file asks for three keys while the first one waits for ten. Then the
-- freed memory holds 9.
read_start-read_start_example :
    let first = read_start 4096 10 idle in
    let second = read_start 8192 3 first in
    let s' = interrupts three_keys second in
    let (t, reply) = read_finish (pos 0) 0 10 0 s' in
    let (u, reply') = read_finish (pos 0) 0 3 0 (record t { memory = λ a. 9 }) in
    (wakes first s' ≡ true)
    × (wakes second s' ≡ true)
    × (reply.copied ≡ bytes_at s'.memory 8192 10)
    × (reply'.copied ≡ 9 ∷ 9 ∷ 9 ∷ [])
    × (u.freed ≡ 8192 ∷ 8192 ∷ [])
    × (t.blocks ≡ (4096, 10) ∷ [])
    × (u.blocks ≡ (4096, 10) ∷ [])
unfolding read_start keys_logged
read_start-read_start_example =
    read_start-read_start 4096 10 8192 3 0 0 three_keys idle (λ a. 9) refl refl refl refl
      (omega arith) (omega arith) (omega arith) refl refl

-- One of two files is closed: `rmmod` leaves a handler behind.
abbrev one_of_two_closed : List Use
one_of_two_closed = opened true ∷ opened true ∷ closed ∷ []

keylog_driver_exit-Left_example :
    Left one_of_two_closed 1 (keylog_driver_exit (uses one_of_two_closed closed_device))
keylog_driver_exit-Left_example =
    keylog_driver_exit-Left one_of_two_closed closed_device 1 refl refl refl refl (omega arith)
