-- ===== src/Keylog/Keys.antt =====
-- The keys of a read of /dev/keylog: where the handler stores them, and when the reader wakes.
use mathlib.Core.List.{reverse-cons}
use kernel_modules_playgroun.Prelude.{
  ℕ, zero, suc, ◌+◌, ◌<◌, ◌≤◌, ◌≡◌, ◌≢◌, refl, sym, ap, ap₂, ◌∙◌, true, List, [], ◌∷◌, ◌++◌,
  reverse, length, arith, u8, u32, Bool, false, ◌==◌, ◌||◌, pos, ◌⊎◌, inl, inr,
}
use kernel_modules_playgroun.Keylog.Driver.{
  Keylog, poke, slot, log_key, testirq_handler, read_start, keys_logged, bytes_at, read_finish,
  irq_handled, wakes,
}

-- What the ports hold at an interrupt.
abbrev pub Ports : Type 0
Ports = ℕ → ℕ

-- Calls of the handler, one after the other.
unfoldable pub calls : List Ports → Keylog → Keylog
calls [] s = s
calls (inb ∷ rest) s = calls rest (testirq_handler inb s).0

abbrev pub copies : ℕ → Ports → List Ports
copies zero inb = []
copies (suc n) inb = inb ∷ copies n inb

-- Interrupts, one after the other: the line is shared, and at each of them the kernel calls the
-- handler once for each registration. The ports hold the same until the next interrupt.
unfoldable pub interrupts : List Ports → Keylog → Keylog
interrupts [] s = s
interrupts (inb ∷ rest) s = interrupts rest (calls (copies s.handlers inb) s)

-- The calls that the interrupts lead to with so many registrations.
abbrev pub each : ℕ → List Ports → List Ports
each n [] = []
each n (inb ∷ rest) = copies n inb ++ each n rest

handler-handlers :
    (inb : Ports) (s : Keylog)
    → ((testirq_handler inb s).0.handlers ≡ s.handlers)
      × ((testirq_handler inb s).0.intr_registered ≡ s.intr_registered)
      × ((testirq_handler inb s).0.blocks ≡ s.blocks)
      × ((testirq_handler inb s).0.freed ≡ s.freed)
unfolding testirq_handler log_key
handler-handlers inb s = ground arith

-- What no call of the handler changes.
pub calls-handlers :
    (bs : List Ports) (s : Keylog)
    → ((calls bs s).handlers ≡ s.handlers)
      × ((calls bs s).intr_registered ≡ s.intr_registered)
      × ((calls bs s).blocks ≡ s.blocks)
      × ((calls bs s).freed ≡ s.freed)
unfolding calls
calls-handlers [] s = (refl, refl, refl, refl)
calls-handlers (inb ∷ bs) s =
    let one = handler-handlers inb s in
    let rest = calls-handlers bs (testirq_handler inb s).0 in
    (rest.0 ∙ one.0, rest.1 ∙ one.1, rest.2 ∙ one.2, rest.3 ∙ one.3)

calls-append : (xs ys : List Ports) (s : Keylog) → calls (xs ++ ys) s ≡ calls ys (calls xs s)
unfolding calls
calls-append [] ys s = refl
calls-append (inb ∷ xs) ys s = calls-append xs ys (testirq_handler inb s).0

pub interrupts-calls :
    (bs : List Ports) (s : Keylog) → interrupts bs s ≡ calls (each s.handlers bs) s
unfolding interrupts calls
interrupts-calls [] s = refl
interrupts-calls (inb ∷ bs) s =
    let t = calls (copies s.handlers inb) s in
    interrupts-calls bs t
    ∙ ap (λ n. calls (each n bs) t) (calls-handlers (copies s.handlers inb) s).0
    ∙ sym (calls-append (copies s.handlers inb) (each s.handlers bs) s)

-- The scan codes that they bring.
abbrev pub codes : ℕ → List Ports → List ℕ
codes port [] = []
codes port (inb ∷ rest) = u8 (inb port) ∷ codes port rest

bytes_at-snoc : (m : ℕ → ℕ) (a n : ℕ) → bytes_at m a (suc n) ≡ bytes_at m a n ++ m (a + n) ∷ []
bytes_at-snoc m a zero = ap (λ b. m b ∷ []) (omega arith)
bytes_at-snoc m a (suc n) =
    ap (λ bs. m a ∷ bs)
      (bytes_at-snoc m (a + 1) n ∙ ap (λ b. bytes_at m (a + 1) n ++ m b ∷ []) (omega arith))

pub handler-log_key :
    (inb : Ports) (s : Keylog)
    → s.kbuf ≢ 0
    → testirq_handler inb s ≡ (log_key (u8 (inb s.device.data_port)) s, irq_handled)
unfolding testirq_handler
handler-log_key inb s ne = ground arith

pub calls-cons :
    (inb : Ports) (bs : List Ports) (s : Keylog)
    → s.kbuf ≢ 0
    → calls (inb ∷ bs) s ≡ calls bs (log_key (u8 (inb s.device.data_port)) s)
unfolding calls
calls-cons inb bs s ne = ap (λ r. calls bs r.0) (handler-log_key inb s ne)

-- A buffer at `p` with room for `k` further keys, all of it below the end of the address space.
abbrev pub Room : ℕ → ℕ → Keylog → Type 0
Room p k s =
    (s.kbuf ≡ p) × (s.keys ≡ k) × (p ≢ 0) × (p + k < 18446744073709551616) × (k < 2147483648)

slot-Room : (p k : ℕ) (s : Keylog) → Room p k s → slot s ≡ p + k
slot-Room p k s r = ground arith

log_key-Room : (c p k : ℕ) (s : Keylog) → Room p (suc k) s → Room p k (log_key c s)
unfolding log_key
log_key-Room c p k s r = (r.0, omega (arith, r.1), r.2, omega (arith, r.3), omega (arith, r.4))

pub log_key-poke :
    (c p k : ℕ) (s : Keylog) (a : ℕ)
    → Room p k s
    → (log_key c s).memory a ≡ poke s.memory (p + k) c a
unfolding log_key
log_key-poke c p k s a r = ap (λ b. poke s.memory b c a) (slot-Room p k s r)

-- The keys of `bs` stand backwards above `p + k`, and nothing else is written.
pub record Logged (p k : ℕ) (bs : List Ports) (s s' : Keylog) : Type 0 where
  pub room : Room p k s'
  pub stored : bytes_at s'.memory (p + k + 1) (length bs) ≡ reverse (codes s.device.data_port bs)
  pub below : (a : ℕ) → a ≤ p + k → s'.memory a ≡ s.memory a
  pub above : (a : ℕ) → p + k + length bs < a → s'.memory a ≡ s.memory a
  pub blocks : s'.blocks ≡ s.blocks

pub calls-Logged :
    (bs : List Ports) (p k : ℕ) (s : Keylog)
    → Room p (k + length bs) s
    → Logged p k bs s (calls bs s)
unfolding calls log_key
calls-Logged [] p k s r = record {
  room = (r.0, omega (arith, r.1), r.2, omega (arith, r.3), omega (arith, r.4));
  stored = refl;
  below = λ a h. refl;
  above = λ a h. refl;
  blocks = refl;
}
calls-Logged (inb ∷ bs) p k s r =
    let c = u8 (inb s.device.data_port) in
    let r' : Room p (suc (k + length bs)) s =
      (r.0, omega (arith, r.1), r.2, omega (arith, r.3), omega (arith, r.4)) in
    let l = calls-Logged bs p k (log_key c s) (log_key-Room c p (k + length bs) s r') in
    rw (handler-log_key inb s (λ e. r.2 (sym r.0 ∙ e))) (record {
      room = l.room;
      stored =
          bytes_at-snoc (calls bs (log_key c s)).memory (p + k + 1) (length bs)
          ∙ ap₂ (λ xs y. xs ++ y ∷ []) l.stored
              (l.above (p + k + 1 + length bs) (omega arith)
                ∙ log_key-poke c p _ s (p + k + 1 + length bs) r'
                ∙ ground arith)
          ∙ sym (reverse-cons c (codes s.device.data_port bs));
      below = λ a h. l.below a h ∙ log_key-poke c p _ s a r' ∙ ground arith;
      above = λ a h. l.above a (omega arith) ∙ log_key-poke c p _ s a r' ∙ ground arith;
      blocks = l.blocks;
    })

-- The call that stores the last key wakes the queue.
pub calls-woken :
    (first : Ports) (bs : List Ports) (p : ℕ) (s : Keylog)
    → Room p (suc (length bs)) s
    → (calls (first ∷ bs) s).woken ≡ true
unfolding calls
calls-woken first [] p s r =
    let e = handler-log_key first s (λ e. r.2 (sym r.0 ∙ e)) in
    ap (λ t. t.0.woken) e ∙ (unfold log_key in ground (arith, r.1))
calls-woken first (b ∷ bs) p s r =
    let c = u8 (first s.device.data_port) in
    ap (λ t. (calls (b ∷ bs) t.0).woken) (handler-log_key first s (λ e. r.2 (sym r.0 ∙ e)))
    ∙ calls-woken b bs p (log_key c s) (log_key-Room c p (suc (length bs)) s r)

-- A read of `len` bytes into a buffer that `kmalloc` has put at `p`.
module _ (p len : ℕ) (s : Keylog) (nonzero : p ≢ 0) (fits : p + len < 18446744073709551616)
    (small : len < 2147483648) where
  start-Room : Room p len (read_start p len s)
  unfolding read_start
  start-Room = (refl, omega arith, nonzero, fits, small)

  -- The first key of a read is stored one byte behind the buffer, and no byte of the buffer
  -- changes.
  first_key-outside :
      (inb : Ports)
      → let s' = (testirq_handler inb (read_start p len s)).0 in
        (s'.memory (p + len) ≡ u8 (inb s.device.data_port))
        × ((a : ℕ) → a ≢ p + len → s'.memory a ≡ s.memory a)
  unfolding read_start
  first_key-outside inb = rw (handler-log_key inb (read_start p len s) nonzero) (
    log_key-poke _ p len (read_start p len s) (p + len) start-Room ∙ ground arith,
    λ a ne. log_key-poke _ p len (read_start p len s) a start-Room ∙ ground arith,
  )

  pub calls-wakes :
      (bs : List Ports)
      → length bs ≡ len
      → wakes (read_start p len s) (calls bs (read_start p len s)) ≡ true
  unfolding wakes keys_logged read_start
  calls-wakes [] e = let zero_keys : (u32 len == 0) ≡ true = ground arith in rw zero_keys refl
  calls-wakes (first ∷ bs) e =
      let started = read_start p len s in
      let woken =
        calls-woken first bs p started (refl, omega arith, nonzero, omega arith, omega arith) in
      let l =
        calls-Logged (first ∷ bs) p 0 started
          (refl, omega arith, nonzero, omega arith, omega arith) in
      rw (woken, l.room.1) (always (u32 len == 0))
    where
      always : (b : Bool) → (b || true) ≡ true
      always true = refl
      always false = refl

  -- For a read of fewer than 2^31 bytes into a buffer below the end of the address space, and
  -- interrupts at which the handler is called as often as the read asks for keys, once for each
  -- file that is open: the last call has woken the reader, whose condition then holds, if the read
  -- waits at all, and the keys stand backwards from one byte behind the buffer's start to one byte
  -- behind its end. Everything else, the buffer's first byte included, is as it was.
  pub interrupts-keys_logged :
      (bs : List Ports)
      → length (each s.handlers bs) ≡ len
      → let s' = interrupts bs (read_start p len s) in
        (wakes (read_start p len s) s' ≡ true)
        × (keys_logged s' ≡ true)
        × (bytes_at s'.memory (p + 1) len ≡ reverse (codes s.device.data_port (each s.handlers bs)))
        × ((a : ℕ) → (a ≤ p) ⊎ (p + len < a) → s'.memory a ≡ s.memory a)
  unfolding keys_logged read_start
  interrupts-keys_logged bs e =
      let keys = each s.handlers bs in
      let l =
        calls-Logged keys p 0 (read_start p len s)
          (refl, omega arith, nonzero, omega arith, omega arith) in
      let m = (calls keys (read_start p len s)).memory in
      rw (interrupts-calls bs (read_start p len s)) (
        calls-wakes keys e,
        rw l.room.1,
        ap₂ (bytes_at m) (omega arith) (sym e) ∙ l.stored,
        λ a outside. elim outside [
          | inl low ↦ l.below a (omega arith)
          | inr high ↦ l.above a (omega arith)
        ],
      )

  -- For a read of fewer than 2^31 bytes into a buffer below the end of the address space, answered
  -- after as many calls of the handler: what it hands to the user is the byte that the buffer's
  -- memory held before, and then the keys backwards, without the first one.
  pub read_finish-copied :
      (first : Ports) (bs : List Ports) (off : ℕ)
      → length bs + 1 ≡ len
      → let s' = calls (first ∷ bs) (read_start p len s) in
        (read_finish (pos 0) 0 len off s').1.copied
        ≡ s.memory p ∷ reverse (codes s.device.data_port bs)
  unfolding read_finish read_start log_key
  read_finish-copied first bs off e =
      let t = log_key (u8 (first s.device.data_port)) (read_start p len s) in
      let start : Room p (suc (length bs)) (read_start p len s) =
        (refl, omega arith, nonzero, omega arith, omega arith) in
      let room =
        log_key-Room (u8 (first s.device.data_port)) p (length bs) (read_start p len s) start in
      let l =
        calls-Logged bs p 0 t (room.0, omega (arith, room.1), nonzero, omega arith, omega arith) in
      let m = (calls bs t).memory in
      let untouched : m p ≡ s.memory p =
        l.below p (omega arith)
        ∙ log_key-poke (u8 (first s.device.data_port)) p (suc (length bs)) (read_start p len s) p
            start
        ∙ ground arith in
      let size : len ≡ suc (length bs) = omega arith in
      rw (calls-cons first bs (read_start p len s) nonzero, l.room.0)
        (ap (bytes_at m p) size
          ∙ ap₂ (λ x xs. x ∷ xs) untouched
              (ap (λ a. bytes_at m a (length bs)) (omega arith) ∙ l.stored))
