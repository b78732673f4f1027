-- ===== src/Debugfs/Sum.antt =====
-- The variable `sum` of debugfs_basic.c, a `u32`, which the file add writes and the file sum shows.
use kernel_modules_playgroun.Prelude.{ℕ, ◌+◌, ◌<◌, ◌≡◌, ◌∙◌, List, [], ◌∷◌, u32, u64, ℤ, pos, arith}

-- The new `sum`, and the result; the addition is that of `u64`.
unfoldable pub add_write : ℕ → ℕ → ℕ × ℤ
add_write value sum = (u32 (u64 (sum + value)), pos 0)

-- The values written one after the other.
abbrev pub add_writes : List ℕ → ℕ → ℕ
add_writes [] sum = sum
add_writes (value ∷ values) sum = add_writes values (add_write value sum).0

abbrev pub total : List ℕ → ℕ
total [] = 0
total (value ∷ values) = value + total values

-- The file sum shows the sum of all values written, modulo 2 ^ 32, also where values or partial sums
-- do not fit into 32 or 64 bits.
pub add_writes-total :
    (values : List ℕ) (sum : ℕ)
    → sum < 4294967296
    → add_writes values sum ≡ u32 (sum + total values)
unfolding add_write
add_writes-total [] sum small = omega (arith, small)
add_writes-total (value ∷ values) sum small =
    add_writes-total values (u32 (u64 (sum + value))) (omega arith) ∙ omega arith
