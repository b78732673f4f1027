-- ===== src/Memory/Writing.antt =====
-- What a process reads from /dev/memory after it has written to it.
use kernel_modules_playgroun.Prelude.{
  ℕ, zero, suc, ◌+◌, ◌-◌, ◌<◌, ◌≡◌, refl, ap, ◌∙◌, true, false, ◌==◌, some, arith,
}
use kernel_modules_playgroun.Memory.Driver.{User, copied, memory_read, memory_write, write_all}

-- The byte that stays: the last one, or the one before the write if there is none.
abbrev pub last_byte : User → ℕ → ℕ → ℕ → ℕ
last_byte user buf zero memory_buffer = memory_buffer
last_byte user buf (suc count) memory_buffer = copied (user (buf + count))

write_all-lem :
    (fuel count : ℕ) (user : User) (buf memory_buffer : ℕ)
    → count < fuel
    → write_all fuel user buf count memory_buffer ≡ some (last_byte user buf count memory_buffer)
unfolding write_all memory_write
write_all-lem zero count user buf memory_buffer enough = absurd (omega arith)
write_all-lem (suc fuel) zero user buf memory_buffer enough = refl
write_all-lem (suc fuel) (suc zero) user buf memory_buffer enough =
    write_all-lem fuel 0 user (buf + 1) (copied (user (buf + 1 - 1))) (omega arith)
    ∙ ap (λ p. some (copied (user p))) {y = buf + 0} (omega arith)
write_all-lem (suc fuel) (suc (suc count)) user buf memory_buffer enough =
    let left : suc (suc count) - 1 ≡ suc count = omega arith in
    let positive : (suc (suc count) == 0) ≡ false = ground arith in
    rw (positive, left)
      (write_all-lem fuel (suc count) user (buf + 1) (copied (user (buf + suc (suc count) - 1)))
          (omega arith)
        ∙ ap (λ p. some (copied (user p))) {y = buf + suc count} (omega arith))

-- A process writes `count` bytes to /dev/memory and, as long as bytes are left, goes on behind
-- those that were taken: with fuel above `count` this ends, and the last byte is stored. The
-- process then reads that byte at position 0, and the end of the file at position 1.
pub memory_read-write_all :
    (fuel count : ℕ) (user : User) (buf memory_buffer : ℕ)
    → count < fuel
    → (write_all fuel user buf count memory_buffer ≡ some (last_byte user buf count memory_buffer))
      × (let answer = memory_read true 0 (last_byte user buf count memory_buffer) in
          (answer.sent ≡ some (last_byte user buf count memory_buffer))
          × (answer.retval ≡ 1)
          × ((memory_read true answer.f_pos (last_byte user buf count memory_buffer)).retval ≡ 0))
unfolding memory_read
memory_read-write_all fuel count user buf memory_buffer enough =
    (write_all-lem fuel count user buf memory_buffer enough, (refl, refl, refl))
