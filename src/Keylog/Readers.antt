-- ===== src/Keylog/Readers.antt =====
-- Readers of /dev/keylog that come too late, or while another one waits: `kbuf` and `keys` are
-- globals.
use kernel_modules_playgroun.Prelude.{
  ℕ, ◌+◌, ◌*◌, ◌<◌, ◌≡◌, ◌≢◌, refl, sym, ap, ◌∙◌, Bool, true, false, ◌==◌, ◌||◌, or-false, ==_refl,
  List, [], ◌∷◌, length, arith, u8, u32, pos,
}
use kernel_modules_playgroun.Keylog.Driver.{
  Keylog, log_key, testirq_handler, read_start, keys_logged, remove_block, wakes, bytes_at,
  read_finish,
}
use kernel_modules_playgroun.Keylog.Keys.{
  Ports, calls, interrupts, each, interrupts-calls, calls-handlers, calls-woken, Room,
  handler-log_key, calls-cons, log_key-poke, calls-Logged,
}

keys-calls :
    (bs : List Ports) (s : Keylog)
    → s.kbuf ≢ 0
    → s.keys < 4294967296
    → (calls bs s).keys ≡ u32 (s.keys + length bs * 4294967295)
unfolding log_key
keys-calls [] s ne small = unfold calls in omega arith
keys-calls (inb ∷ bs) s ne small =
    let t = log_key (u8 (inb s.device.data_port)) s in
    rw (calls-cons inb bs s ne) (keys-calls bs t ne (omega arith) ∙ omega arith)

-- If the handler is called more often than a read of fewer than 2^31 bytes asks for keys, but not
-- 2^32 times more, the condition of the read does not hold behind them: a reader that has not run
-- in time does not wake.
pub keys_logged-missed :
    (bs : List Ports) (p len : ℕ) (s : Keylog)
    → p ≢ 0
    → len < 2147483648
    → len < length bs
    → length bs < len + 4294967296
    → keys_logged (calls bs (read_start p len s)) ≡ false
unfolding keys_logged read_start
keys_logged-missed bs p len s nonzero small over under =
    let left = keys-calls bs (read_start p len s) nonzero (omega arith) in
    let ne : (calls bs (read_start p len s)).keys ≢ 0 = omega (arith, left) in ground (arith, ne)

-- After a successful read, whose block is the latest one allocated, `kbuf` still points to the
-- buffer, which is freed; the next key is written there and makes the count of keys -1.
pub read_finish-stale :
    (p len off : ℕ) (s : Keylog) (others : List (ℕ × ℕ)) (inb : Ports)
    → Room p 0 s
    → s.blocks ≡ (p, len) ∷ others
    → let s' = (read_finish (pos 0) 0 len off s).0 in
      (s'.blocks ≡ others)
      × ((testirq_handler inb s').0.memory p ≡ u8 (inb s.device.data_port))
      × ((testirq_handler inb s').0.keys ≡ 4294967295)
unfolding read_finish
read_finish-stale p len off s others inb r held =
    let t = record s { blocks = others; freed = p ∷ s.freed } in
    let ne : s.kbuf ≢ 0 = λ e. r.2 (sym r.0 ∙ e) in
    let same : (p == p) ≡ true = ground arith in
    let e : (read_finish (pos 0) 0 len off s).0 ≡ t = simp (held, r.0, same) in
    let room : Room p 0 t = r in
    rw e (
      ap (λ u. u.blocks) e,
      rw (handler-log_key inb t ne)
          (log_key-poke (u8 (inb s.device.data_port)) p 0 t p room ∙ ground arith),
      rw (handler-log_key inb t ne) (unfold log_key in omega (arith, r.1)),
    )

woken_lem :
    (keys : List Ports) (q : ℕ) (s : Keylog)
    → Room q (length keys) s
    → 0 < length keys
    → (calls keys s).woken ≡ true
woken_lem [] q s r some_key = absurd (omega arith)
woken_lem (first ∷ keys) q s r some_key = calls-woken first keys q s r

or_true : (b : Bool) → (b || true) ≡ true
or_true true = refl
or_true false = refl

-- Whether the module has a block at an address.
abbrev pub owns : ℕ → List (ℕ × ℕ) → Bool
owns p [] = false
owns p ((q, n) ∷ bs) = (q == p) || owns p bs

remove_block_absent : (p : ℕ) (bs : List (ℕ × ℕ)) → owns p bs ≡ false → remove_block p bs ≡ bs
remove_block_absent p [] e = refl
remove_block_absent p ((q, n) ∷ bs) e =
    let (here, there) = or-false (q == p) (owns p bs) e in
    rw here (ap (λ cs. (q, n) ∷ cs) (remove_block_absent p bs there))

-- A reader asks for `n` bytes and waits, and then a second one for fewer than 2^31 bytes, but at
-- least one, into a new block below the end of the address space. When the handler has been called
-- as often as the second asks for keys, once for each open file at each interrupt, both have been
-- woken, and the condition of both holds. The first is handed what stands in the block of the
-- second, however many bytes it asked for, and frees that block. The second is handed what is in the
-- freed memory by then, whatever that is, and frees the same block again. The block of the first is
-- never freed.
pub read_start-read_start :
    (p n q m off off' : ℕ) (bs : List Ports) (s : Keylog) (later : ℕ → ℕ)
    → (p == 0) ≡ false
    → (q == 0) ≡ false
    → (p == q) ≡ false
    → owns q s.blocks ≡ false
    → q + m < 18446744073709551616
    → m < 2147483648
    → 0 < m
    → keys_logged (read_start p n s) ≡ false
    → length (each s.handlers bs) ≡ m
    → let first = read_start p n s in
      let second = read_start q m first in
      let s' = interrupts bs second in
      let (t, reply) = read_finish (pos 0) 0 n off s' in
      let (u, reply') = read_finish (pos 0) 0 m off' (record t { memory = later }) in
      (wakes first s' ≡ true)
      × (wakes second s' ≡ true)
      × (reply.copied ≡ bytes_at s'.memory q n)
      × (reply'.copied ≡ bytes_at later q m)
      × (u.freed ≡ q ∷ q ∷ s.freed)
      × (t.blocks ≡ (p, n) ∷ s.blocks)
      × (u.blocks ≡ (p, n) ∷ s.blocks)
unfolding read_start read_finish keys_logged wakes
read_start-read_start p n q m off off' bs s later p0 q0 pq free fits small some_key waits size =
    let keys = each s.handlers bs in
    let begun = read_start q m (read_start p n s) in
    let nonzero : q ≢ 0 = λ e. ground arith in
    let room : Room q (length keys) begun =
      (refl, omega arith, nonzero, omega arith, omega arith) in
    let l = calls-Logged keys q 0 begun (refl, omega arith, nonzero, omega arith, omega arith) in
    let woken = woken_lem keys q begun room (omega arith) in
    let kept = calls-handlers keys begun in
    let absent : owns q ((p, n) ∷ s.blocks) ≡ false = rw (pq, free) refl in
    let left = remove_block_absent q ((p, n) ∷ s.blocks) absent in
    rw (interrupts-calls bs begun) (
      rw (l.room.0, l.room.1, l.blocks, kept.3, woken, p0, q0, ==_refl q)
        (or_true (u32 n == 0), or_true (u32 m == 0), refl, refl, refl, refl, left))
