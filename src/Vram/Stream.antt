-- ===== src/Vram/Stream.antt =====
-- What a process reads from /dev/vram to its end after another has written to it in pieces.
use kernel_modules_playgroun.Prelude.{
  ℕ, zero, suc, ◌+◌, ◌-◌, ◌<◌, ◌≤◌, ◌≡◌, ◌≢◌, refl, sym, ◌∙◌, ap, ap₂, true, ◌==◌, some, List, [],
  ◌∷◌, ◌++◌, length, get_or, length-append, arith, pos, Bool-cases, inl, inr,
}
use kernel_modules_playgroun.Vram.Driver.{Io, vram_size, my_read, my_write}
use kernel_modules_playgroun.Vram.Transfer.{
  share, bytes_from, reached, outcome, reached_all, bytes_from_same, my_read-share, my_write-share,
}
use kernel_modules_playgroun.Vram.Files.{my_open, vram_fops, write_pieces, read_to_end, store, cat}

abbrev pub concat : List (List ℕ) → List ℕ
concat [] = []
concat (p ∷ ps) = p ++ concat ps

bytes_from-append :
    (f : ℕ → ℕ) (a m n : ℕ) → bytes_from f a (m + n) ≡ bytes_from f a m ++ bytes_from f (a + m) n
bytes_from-append f a zero n = ap₂ (bytes_from f) (omega arith) (omega arith)
bytes_from-append f a (suc m) n =
    ap (bytes_from f a) {y = suc (m + n)} (omega arith)
    ∙ ap (λ xs. f a ∷ xs)
        (bytes_from-append f (a + 1) m n
          ∙ ap (λ b. bytes_from f (a + 1) m ++ bytes_from f b n) (omega arith))

bytes_from-get_or : (p : List ℕ) → bytes_from (λ i. get_or p i 0) 0 (length p) ≡ p
bytes_from-get_or [] = refl
bytes_from-get_or (x ∷ p) =
    ap (λ xs. x ∷ xs)
      (bytes_from_same (λ i. get_or (x ∷ p) i 0) (λ i. get_or p i 0) (0 + 1) 0 (length p)
          (λ j h.
            ap (λ i. get_or (x ∷ p) i 0) {y = suc j} (omega arith)
            ∙ ap (λ i. get_or p i 0) (omega arith))
        ∙ bytes_from-get_or p)

share_all : (len off : ℕ) → off + len ≤ vram_size → share len off ≡ len
share_all len off below = ground arith

moved_all : (len off : ℕ) → off + len ≤ vram_size → reached (λ _. true) 0 (share len off) ≡ len
moved_all len off below = reached_all 0 (share len off) ∙ share_all len off below

outcome_all :
    (len off : ℕ)
    → off + len ≤ vram_size
    → outcome (reached (λ _. true) 0 (share len off)) (share len off) off ≡ (pos len, off + len)
outcome_all len off below =
    let whole : (len == len) ≡ true = ground arith in
    rw (moved_all len off below, share_all len off below, whole) refl

-- The `len` bytes from `off` on are laid down, the rest is kept.
record Laid (bytes : List ℕ) (off len : ℕ) (io io' : Io) : Type 0 where
  there : bytes_from io' off len ≡ bytes
  below : (a : ℕ) → a < off → io' a ≡ io a
  above : (a : ℕ) → off + len ≤ a → io' a ≡ io a

module _ (p : List ℕ) (off : ℕ) (io : Io) (fits : off + length p ≤ vram_size) where
  my_write-Laid :
      let w = my_write (λ _. true) (λ i. get_or p i 0) (length p) off io in
      (w.off ≡ off + length p) × Laid p off (length p) io w.io
  my_write-Laid =
      let w = my_write (λ _. true) (λ i. get_or p i 0) (length p) off io in
      let (written, _, end) =
        my_write-share (λ _. true) (length p) off (omega arith) (λ i. get_or p i 0) io in
      let all = moved_all (length p) off fits in
      (
        ap (λ r. r.1) (end ∙ outcome_all (length p) off fits),
        record {
          there =
              bytes_from_same w.io (λ i. get_or p i 0) off 0 (length p)
                (λ j h.
                  written.0 j (omega arith) (omega (arith, all))
                  ∙ ap (λ i. get_or p i 0) {y = 0 + j} (omega arith))
              ∙ bytes_from-get_or p;
          below = λ a h. written.1 a (inl (omega arith));
          above = λ a h. written.1 a (inr (omega (arith, all)));
        },
      )

write_pieces-Laid :
    (ps : List (List ℕ)) (off : ℕ) (io : Io)
    → off + length (concat ps) ≤ vram_size
    → let (off', io') = write_pieces vram_fops ps off io in
      (off' ≡ off + length (concat ps)) × Laid (concat ps) off (length (concat ps)) io io'
unfolding write_pieces
write_pieces-Laid [] off io fits =
    (omega arith, record { there = refl; below = λ a h. refl; above = λ a h. refl })
write_pieces-Laid (p ∷ ps) off io fits =
    let size = length-append p (concat ps) in
    let w = my_write (λ _. true) (λ i. get_or p i 0) (length p) off io in
    let (moves, first) = my_write-Laid p off io (omega (arith, size)) in
    let (ends, rest) = write_pieces-Laid ps w.off w.io (omega (arith, size, moves)) in
    let io' = (write_pieces vram_fops ps w.off w.io).1 in
    (
      omega (arith, ends, moves, size),
      record {
        there =
            ap (bytes_from io' off) size
            ∙ bytes_from-append io' off (length p) (length (concat ps))
            ∙ ap₂ (λ xs ys. xs ++ ys)
                (bytes_from_same io' w.io off off (length p)
                    (λ j h. rest.below (off + j) (omega (arith, moves)))
                  ∙ first.there)
                (ap (λ a. bytes_from io' a (length (concat ps))) (sym moves) ∙ rest.there);
        below = λ a h. rest.below a (omega (arith, moves)) ∙ first.below a h;
        above =
            λ a h. rest.above a (omega (arith, moves, size)) ∙ first.above a (omega (arith, size));
      },
    )

-- A read without a fault.
my_read_all :
    (n off : ℕ) (io : Io)
    → off + n < 9223372036854775808
    → let r = my_read (λ _. true) io n off in
      (r.buf ≡ bytes_from io off (share n off))
      × (r.ret ≡ pos (share n off))
      × (r.off ≡ off + share n off)
my_read_all n off io request =
    let (copied, end) = my_read-share (λ _. true) n off request io in
    let all = reached_all 0 (share n off) in
    let whole : (share n off == share n off) ≡ true = ground arith in
    let outcome_lem : outcome (reached (λ _. true) 0 (share n off)) (share n off) off
        ≡ (pos (share n off), off + share n off) =
      rw (all, whole) refl in
    (
      copied ∙ ap (bytes_from io off) all,
      ap (λ r. r.0) (end ∙ outcome_lem),
      ap (λ r. r.1) (end ∙ outcome_lem),
    )

share_bounds :
    (n off : ℕ)
    → off ≤ vram_size
    → 0 < n
    → (off + share n off ≤ vram_size) × (share n off ≡ 0 → off ≡ vram_size)
share_bounds n off within some_bytes = (ground arith, λ e. ground arith)

read_to_end_lem :
    (fuel n off : ℕ) (io : Io)
    → off ≤ vram_size
    → 0 < n
    → n < 4611686018427387904
    → vram_size - off < fuel
    → read_to_end vram_fops fuel n off io ≡ some (bytes_from io off (vram_size - off))
unfolding read_to_end
read_to_end_lem zero n off io within some_bytes small enough = absurd (omega arith)
read_to_end_lem (suc fuel) n off io within some_bytes small enough =
    let k = share n off in
    let (copied, ret, moves) = my_read_all n off io (omega arith) in
    let (below, stuck) = share_bounds n off within some_bytes in
    elim (Bool-cases (k == 0)) [
      | inl none_left ↦
          let last : vram_size - off ≡ 0 = omega (arith, stuck (ground (arith, none_left))) in
          rw (ret, none_left, last) refl
      | inr more ↦
          let positive : k ≢ 0 = λ e. ground (arith, more, e) in
          let rest =
            read_to_end_lem fuel n (off + k) io below some_bytes small (omega (arith, positive)) in
          rw (ret, more, moves, copied, rest)
            (ap some (
              sym (bytes_from-append io off k (vram_size - (off + k)))
              ∙ ap (bytes_from io off) (omega arith)))
    ]

-- A process opens /dev/vram and writes pieces of together at most the memory's size, one after the
-- other; another one opens it and reads requests of any size between 1 and 2^62 - 1 until one
-- returns 0. With fuel above the memory's size the reading ends, and gives the pieces in their
-- order, and behind them what the memory held there before.
pub cat-store :
    (ps : List (List ℕ)) (fuel n : ℕ) (io : Io)
    → length (concat ps) ≤ vram_size
    → 0 < n
    → n < 4611686018427387904
    → vram_size < fuel
    → cat vram_fops fuel n (store vram_fops ps io)
      ≡ some (concat ps ++ bytes_from io (length (concat ps)) (vram_size - length (concat ps)))
unfolding cat store my_open
cat-store ps fuel n io fits some_bytes small enough =
    let size = length (concat ps) in
    let (_, laid) = write_pieces-Laid ps 0 io (omega arith) in
    let io' = (write_pieces vram_fops ps 0 io).1 in
    let rest = vram_size - size in
    read_to_end_lem fuel n 0 io' (omega arith) some_bytes small (omega arith)
    ∙ ap some (
        ap (bytes_from io' 0) {x = vram_size - 0} {y = size + rest} (omega arith)
        ∙ bytes_from-append io' 0 size rest
        ∙ ap₂ (λ xs ys. xs ++ ys) laid.there
            (bytes_from_same io' io (0 + size) size rest
              λ j h. laid.above (0 + size + j) (omega arith) ∙ ap io {y = size + j} (omega arith)))
