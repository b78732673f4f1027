-- ===== src/Memory/Examples.antt =====
-- A process that writes three bytes to /dev/memory.
use kernel_modules_playgroun.Prelude.{◌+◌, ◌≡◌, refl, none, some, true, List, [], ◌∷◌, arith, pos}
use kernel_modules_playgroun.Memory.Driver.{User, memory_read, memory_write, write_all}
use kernel_modules_playgroun.Memory.Files.{
  memory_open, memory_release, memory_fops, Node, Call, opens, reads, writes, closes, returned,
  ebadf, handle, run,
}
use kernel_modules_playgroun.Memory.Register.{register, replies, run-replies}
use kernel_modules_playgroun.Memory.Writing.{last_byte, memory_read-write_all}

abbrev user : User
user a = some (a + 1)

memory_read-write_all_test :
    (write_all 4 user 100 3 0 ≡ some (last_byte user 100 3 0))
    × (let answer = memory_read true 0 (last_byte user 100 3 0) in
        (answer.sent ≡ some (last_byte user 100 3 0))
        × (answer.retval ≡ 1)
        × ((memory_read true answer.f_pos (last_byte user 100 3 0)).retval ≡ 0))
memory_read-write_all_test = memory_read-write_all 4 3 user 100 0 (omega arith)

abbrev loaded : Node
loaded = record { memory_buffer = 0; f_pos = λ fd. none }

-- One process writes three bytes while another one has read to the end.
abbrev calls : List Call
calls =
    opens 3
    ∷ reads 3 true
    ∷ opens 4
    ∷ writes 4 user 100 3
    ∷ reads 3 true
    ∷ reads 4 true
    ∷ closes 4
    ∷ reads 4 true
    ∷ []

run-replies_example : run memory_fops calls loaded ≡ replies calls (register loaded)
run-replies_example = run-replies calls loaded

calls_test :
    run memory_fops calls loaded
    ≡ returned (pos 0)
      ∷ record { ret = pos 1; sent = some 0 }
      ∷ returned (pos 0)
      ∷ returned (pos 1)
      ∷ record { ret = pos 0; sent = some 103 }
      ∷ record { ret = pos 1; sent = some 103 }
      ∷ returned (pos 0)
      ∷ returned ebadf
      ∷ []
unfolding run handle memory_open memory_release memory_read memory_write
calls_test = refl

-- A write of no bytes takes the byte before its buffer.
empty_write_test : (memory_write user 100 0 0).0 ≡ 100
unfolding memory_write
empty_write_test = refl
