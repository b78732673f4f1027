-- ===== src/Vram/Transfer.antt =====
-- What a read or a write of /dev/vram transfers.
use kernel_modules_playgroun.Prelude.{
  ℕ, zero, suc, ◌+◌, ◌-◌, ◌<◌, ◌≤◌, ◌≡◌, ◌⊎◌, refl, ◌∙◌, ap, ap₂, Bool, true, false, ltb, leb, ◌==◌,
  if◌then◌else◌, List, [], ◌∷◌, arith, u64, ℤ, pos, efault, Bool-cases, inl, inr, signed64,
}
use kernel_modules_playgroun.Vram.Driver.{
  Io, vram_size, at_end, clip, read_loop, my_read, iowrite8, write_loop, my_write,
}

-- How much of a request lies below the end of the memory.
abbrev pub share : (len off : ℕ) → ℕ
share len off =
    if leb vram_size off then 0 else if ltb (vram_size - off) len then vram_size - off else len

-- The bytes from a distance on.
abbrev pub bytes_from : (ℕ → ℕ) → (a n : ℕ) → List ℕ
bytes_from io a zero = []
bytes_from io a (suc n) = io a ∷ bytes_from io (a + 1) n

-- The position and the length that the system call layer passes to the driver: neither is
-- negative as a signed number, and their sum is representable.
abbrev pub Request : (len off : ℕ) → Type 0
Request len off = off + len < 9223372036854775808

clip-share :
    (len off : ℕ)
    → Request len off
    → at_end off ≡ false
    → (clip len off ≡ share len off) × (off + share len off ≤ vram_size)
clip-share len off r before = ground arith

-- How many of `n` bytes, from the `i`-th on, can be copied before the first fault.
abbrev pub reached : (ℕ → Bool) → (i n : ℕ) → ℕ
reached ok i zero = 0
reached ok i (suc n) = let more = reached ok (i + 1) n in if ok i then suc more else 0

reached-le : (ok : ℕ → Bool) (i n : ℕ) → reached ok i n ≤ n
reached-le ok i zero = omega arith
reached-le ok i (suc n) = ground (arith, reached-le ok (i + 1) n)

read_loop-bytes :
    (ok : ℕ → Bool) (io : Io) (off i n : ℕ)
    → off + i + n < 18446744073709551616
    → read_loop ok io off i n ≡ (bytes_from io (off + i) (reached ok i n), reached ok i n == n)
unfolding read_loop
read_loop-bytes ok io off i zero h = refl
read_loop-bytes ok io off i (suc n) h = elim (Bool-cases (ok i)) [
  | inl good ↦
      let here : u64 (off + i) ≡ off + i = omega arith in
      let next : off + (i + 1) ≡ off + i + 1 = omega arith in
      let same : (suc (reached ok (i + 1) n) == suc n) ≡ (reached ok (i + 1) n == n) =
        ground arith in
      rw (read_loop-bytes ok io off (i + 1) n (omega arith), good, here, next, same) refl
  | inr bad ↦ rw bad (ap (λ b. ([], b)) (ground arith))
]

-- Of the memory just the `m` bytes from `off + i` on are those of the buffer, the rest is kept.
abbrev pub WrittenFrom : (ℕ → ℕ) → Io → (off i m : ℕ) → Io → Type 0
WrittenFrom buf io off i m io' =
    ((j : ℕ) → i ≤ j → j < i + m → io' (off + j) ≡ buf j)
    × ((a : ℕ) → (a < off + i) ⊎ (off + i + m ≤ a) → io' a ≡ io a)

write_loop-Written :
    (ok : ℕ → Bool) (buf : ℕ → ℕ) (off i n : ℕ) (io : Io)
    → off + i + n < 18446744073709551616
    → ((write_loop ok buf off i n io).1 ≡ (reached ok i n == n))
      × WrittenFrom buf io off i (reached ok i n) (write_loop ok buf off i n io).0
unfolding write_loop
write_loop-Written ok buf off i zero io h =
    (refl, ((λ j lo hi. absurd (omega arith)), λ a out. refl))
write_loop-Written ok buf off i (suc n) io h = elim (Bool-cases (ok i)) [
  | inl good ↦
      let here : u64 (off + i) ≡ off + i = omega arith in
      let io₁ = iowrite8 io (u64 (off + i)) (buf i) in
      let (all, written) = write_loop-Written ok buf off (i + 1) n io₁ (omega arith) in
      rw good (
        all ∙ ground arith,
        (
          (λ j lo hi. elim (Bool-cases (j == i)) [
            | inl first ↦ written.1 (off + j) (ground arith) ∙ ground arith
            | inr later ↦ written.0 j (ground arith) (omega arith)
          ]),
          λ a out. written.1 a (ground arith) ∙ ground arith,
        ),
      )
  | inr bad ↦ rw bad (ground arith, ((λ j lo hi. absurd (omega arith)), λ a out. refl))
]

share-end : (len off : ℕ) → at_end off ≡ true → share len off ≡ 0
share-end len off end = ground arith

-- The values that both functions return for `n` bytes within the memory.
signed64_small : (n : ℕ) → n ≤ vram_size → signed64 n ≡ pos n
signed64_small n h = ground arith

-- The outcome of a transfer of `m` bytes of the `n` that are asked for.
abbrev pub outcome : (m n off : ℕ) → ℤ × ℕ
outcome m n off = if m == n then (pos n, off + n) else (efault, off)

finished :
    (n off : ℕ) → off + n ≤ vram_size → ◌≡◌ {A = ℤ × ℕ} (signed64 n, u64 (off + n)) (pos n, off + n)
finished n off h = ap₂ (λ a b. (a, b)) (signed64_small n (omega arith)) (omega arith)

module _ (ok : ℕ → Bool) (len off : ℕ) (request : Request len off) where
  -- The bytes that are transferred.
  abbrev pub moved : ℕ
  moved = reached ok 0 (share len off)

  -- A read at a position that, with its length, is below 2^63 copies the bytes from the position
  -- on, up to the first fault, the end of the memory or the end of the request. Without a fault it
  -- returns their number and moves the position past them; with one it returns -EFAULT and leaves
  -- the position.
  pub my_read-share :
      (io : Io)
      → let r = my_read ok io len off in
        (r.buf ≡ bytes_from io off moved) × ((r.ret, r.off) ≡ outcome moved (share len off) off)
  unfolding my_read
  my_read-share io = elim (Bool-cases (at_end off)) [
    | inl end ↦ rw (end, share-end len off end) (refl, ap (λ o. (pos 0, o)) (omega arith))
    | inr before ↦
        let (clipped, below) = clip-share len off request before in
        let start : off + 0 ≡ off = omega arith in
        rw (before, clipped, read_loop-bytes ok io off 0 (share len off) (omega arith), start)
          (elim (Bool-cases (moved == share len off)) [
            | inl all ↦ rw all (refl, finished (share len off) off below)
            | inr fault ↦ rw fault (refl, refl)
          ])
  ]

  -- A write at a position that, with its length, is below 2^63 changes exactly the bytes that a
  -- read of the same request would return, to those of the user's buffer, none of them outside of
  -- the memory, and returns and moves as the read does.
  pub my_write-share :
      (buf : ℕ → ℕ) (io : Io)
      → let r = my_write ok buf len off io in
        WrittenFrom buf io off 0 moved r.io
        × ((a : ℕ) → vram_size ≤ a → r.io a ≡ io a)
        × ((r.ret, r.off) ≡ outcome moved (share len off) off)
  unfolding my_write
  my_write-share buf io = elim (Bool-cases (at_end off)) [
    | inl end ↦
        rw (end, share-end len off end)
          (
            ((λ j lo hi. absurd (omega arith)), λ a out. refl),
            λ a high. refl,
            ap (λ o. (pos 0, o)) (omega arith),
          )
    | inr before ↦
        let n = share len off in
        let (clipped, below) = clip-share len off request before in
        let (all, written) = write_loop-Written ok buf off 0 n io (omega arith) in
        let fewer = reached-le ok 0 n in
        rw (before, clipped, all)
          (elim (Bool-cases (moved == n)) [
            | inl every ↦
                rw every (written, λ a high. written.1 a (inr (omega arith)), finished n off below)
            | inr fault ↦ rw fault (written, λ a high. written.1 a (inr (omega arith)), refl)
          ])
  ]

pub reached_all : (i n : ℕ) → reached (λ _. true) i n ≡ n
reached_all i zero = refl
reached_all i (suc n) = ap suc (reached_all (i + 1) n)

pub bytes_from_same :
    (f g : ℕ → ℕ) (a b n : ℕ)
    → ((j : ℕ) → j < n → f (a + j) ≡ g (b + j))
    → bytes_from f a n ≡ bytes_from g b n
bytes_from_same f g a b zero same = refl
bytes_from_same f g a b (suc n) same =
    ap₂ (λ x xs. x ∷ xs) (ap f (omega arith) ∙ same 0 (omega arith) ∙ ap g (omega arith))
      (bytes_from_same f g (a + 1) (b + 1) n
        λ j h. ap f (omega arith) ∙ same (j + 1) (omega arith) ∙ ap g (omega arith))

-- What a write without faults has stored, a read of the same request returns, as far as the
-- reader's own buffer lets it, for a position and a length whose sum is below 2^63.
pub my_read-write :
    (ok : ℕ → Bool) (buf : ℕ → ℕ) (len off : ℕ) (io : Io)
    → Request len off
    → (my_read ok (my_write (λ _. true) buf len off io).io len off).buf
      ≡ bytes_from buf 0 (reached ok 0 (share len off))
my_read-write ok buf len off io request =
    let w = my_write-share (λ _. true) len off request buf io in
    let n = share len off in
    (my_read-share ok len off request (my_write (λ _. true) buf len off io).io).0
    ∙ bytes_from_same (my_write (λ _. true) buf len off io).io buf off 0 (reached ok 0 n) (λ j h.
      w.0.0 j (omega arith) (omega (arith, reached-le ok 0 n, reached_all 0 n))
      ∙ ap buf (omega arith))
