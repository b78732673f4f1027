-- ===== src/Debugfs/Examples.antt =====
-- Three writes, of which the second wraps.
use kernel_modules_playgroun.Prelude.{◌≡◌, [], ◌∷◌, arith}
use kernel_modules_playgroun.Debugfs.Sum.{add_writes, add_writes-total}

add_writes-total_test : add_writes (5 ∷ 4294967295 ∷ 18446744073709551615 ∷ []) 0 ≡ 3
add_writes-total_test =
    add_writes-total (5 ∷ 4294967295 ∷ 18446744073709551615 ∷ []) 0 (omega arith)
