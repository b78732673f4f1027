-- ===== src/Vram/Examples.antt =====
-- Concrete transfers of /dev/vram, at the end of the memory.
use kernel_modules_playgroun.Prelude.{
  ℕ, ◌+◌, ◌-◌, ◌≤◌, ◌≡◌, Bool, true, ltb, some, List, [], ◌∷◌, ◌++◌, length, arith,
}
use kernel_modules_playgroun.Vram.Driver.{Io, vram_size, my_read, my_write}
use kernel_modules_playgroun.Vram.Files.{vram_fops, store, cat}
use kernel_modules_playgroun.Vram.Stream.{concat, cat-store}
use kernel_modules_playgroun.Vram.Transfer.{
  Request, share, bytes_from, reached, moved, outcome, WrittenFrom, my_read-share, my_write-share,
  my_read-write,
}

abbrev striped : Io
striped a = a + 1

-- The user's buffer has two bytes.
abbrev two_bytes : ℕ → Bool
two_bytes i = ltb i 2

abbrev last_three : ℕ
last_three = 131069

request : Request 8 last_three
request = omega arith

my_read-share_example :
    let r = my_read two_bytes striped 8 last_three in
    (r.buf ≡ bytes_from striped last_three (moved two_bytes 8 last_three request))
    × ((r.ret, r.off)
        ≡ outcome (moved two_bytes 8 last_three request) (share 8 last_three) last_three)
my_read-share_example = my_read-share two_bytes 8 last_three request striped

my_write-share_example :
    let r = my_write two_bytes striped 8 last_three (λ a. 0) in
    WrittenFrom striped (λ a. 0) last_three 0 (moved two_bytes 8 last_three request) r.io
    × ((a : ℕ) → vram_size ≤ a → r.io a ≡ 0)
    × ((r.ret, r.off)
        ≡ outcome (moved two_bytes 8 last_three request) (share 8 last_three) last_three)
my_write-share_example = my_write-share two_bytes 8 last_three request striped (λ a. 0)

my_read-write_test :
    (my_read two_bytes (my_write (λ _. true) striped 8 last_three (λ a. 0)).io 8 last_three).buf
    ≡ bytes_from striped 0 (reached two_bytes 0 (share 8 last_three))
my_read-write_test = my_read-write two_bytes striped 8 last_three (λ a. 0) request

abbrev pieces : List (List ℕ)
pieces = (104 ∷ 101 ∷ []) ∷ (108 ∷ 108 ∷ 111 ∷ []) ∷ []

cat-store_example :
    cat vram_fops 131073 4096 (store vram_fops pieces striped)
    ≡ some (
        concat pieces
        ++ bytes_from striped (length (concat pieces)) (vram_size - length (concat pieces)))
cat-store_example =
    cat-store pieces 131073 4096 striped (omega arith) (omega arith) (omega arith) (omega arith)
