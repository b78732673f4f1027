-- ===== src/TextDevices/Examples.antt =====
-- Concrete writes to the devices of misc_char_dev.c and procfs.c.
use kernel_modules_playgroun.Prelude.{
  ℤ, ℕ, zero, suc, ◌+◌, ◌-◌, ◌≡◌, refl, Option, none, some, List, [], ◌∷◌, ◌++◌, length, take, drop,
  arith, pos,
}
use kernel_modules_playgroun.Prelude.Bytes.{text, same_text, c_string}
use kernel_modules_playgroun.RwLock.{free, read_lock, read_unlock, write_lock, write_unlock}
use kernel_modules_playgroun.TextDevices.Buffer.{maxbuff, Written, room, left}
use kernel_modules_playgroun.TextDevices.Reading.{Fetch, read_all, read_all-my_eud_id}
use kernel_modules_playgroun.TextDevices.Device.{Device, terminate, verdict}
use kernel_modules_playgroun.TextDevices.Procfs
use kernel_modules_playgroun.TextDevices.MiscCharDev
use kernel_modules_playgroun.TextDevices.Interleaving
use kernel_modules_playgroun.TextDevices.Files.{
  misc_fops, fops, Helpers, Node, Call, opens, reads, writes, closes, Reply, returned, ebadf,
  handle, run,
}
use kernel_modules_playgroun.TextDevices.Agreement.{run-misc_fops}
use kernel_modules_playgroun.TextDevices.MiscCharDev.{store_locked}
use kernel_modules_playgroun.TextDevices.Words.{
  answer, my_write-first, my_write-later, my_write-stray, my_write-Procfs,
}

abbrev fill : ℕ → ℕ → List ℕ
fill zero c = []
fill (suc n) c = c ∷ fill n c

-- `simple_write_to_buffer` on bytes that do not fault.
abbrev simple_write_to_buffer : List ℕ → List ℕ → ℕ → Written
simple_write_to_buffer old from off = record {
  ret = pos (room (length from) off);
  buffer =
      take off old
      ++ (take (room (length from) off) from ++ drop (off + room (length from) off) old);
  off = off + room (length from) off;
}

-- As the module is loaded.
abbrev fresh : Device
fresh = record { kern_buff = fill 128 0; strays = []; lock = free }

my_write-first_example :
    (Procfs.my_write (simple_write_to_buffer (fill 128 0) (text "linux") 0) fresh).1
    ≡ answer (pos 5) (c_string (text "linux"))
my_write-first_example =
    my_write-first (text "linux") 0 fresh (simple_write_to_buffer (fill 128 0) (text "linux") 0)
      refl (omega arith) (record { ret = refl; buffer = refl; moved = refl }) refl (omega arith)

abbrev written : Device
written = record { kern_buff = text "linux" ++ fill 123 0; strays = []; lock = free }

my_write-later_example :
    (Procfs.my_write (simple_write_to_buffer written.kern_buff (text "abcde") 5) written).1
    ≡ answer (pos (room 5 5)) (c_string (take (room 5 5) written.kern_buff))
my_write-later_example =
    my_write-later (text "abcde") 5 written
      (simple_write_to_buffer written.kern_buff (text "abcde") 5) refl (omega arith)
      (record { ret = refl; buffer = refl; moved = refl }) (omega arith)

my_write-stray_test :
    (Procfs.my_write (simple_write_to_buffer (fill 128 0) (fill 130 65) 0) fresh).0.strays
    ≡ pos 128 ∷ []
my_write-stray_test =
    my_write-stray (fill 130 65) 0 fresh (simple_write_to_buffer (fill 128 0) (fill 130 65) 0) refl
      (omega arith) (record { ret = refl; buffer = refl; moved = refl }) refl (omega arith)

my_write-Procfs_test :
    MiscCharDev.my_write (simple_write_to_buffer (fill 128 0) (text "linux") 0) fresh
    ≡ some (Procfs.my_write (simple_write_to_buffer (fill 128 0) (text "linux") 0) fresh)
my_write-Procfs_test = my_write-Procfs (simple_write_to_buffer (fill 128 0) (text "linux") 0) fresh

abbrev overwritten : Device
overwritten = record { kern_buff = text "other" ++ fill 123 0; strays = []; lock = free }

stores_own :
    store_locked (simple_write_to_buffer (fill 128 0) (text "linux") 0) fresh ≡ some written
unfolding store_locked terminate write_lock write_unlock
stores_own = refl

stores_other :
    store_locked (simple_write_to_buffer written.kern_buff (text "other") 0) written
    ≡ some overwritten
unfolding store_locked terminate write_lock write_unlock
stores_other = refl

-- Two writes of `linux` and `other`.
-- Between the two steps of each write the buffer holds something else.
both_stored :
    Interleaving.Reaches fresh (text "other" ∷ text "linux" ∷ []) Interleaving.quiet overwritten
unfolding write_lock
both_stored =
    Interleaving.stored
      (Interleaving.begun (text "other") (simple_write_to_buffer written.kern_buff (text "other") 0)
        (text "otnux")
        (Interleaving.stored
          (Interleaving.begun (text "linux") (simple_write_to_buffer (fill 128 0) (text "linux") 0)
            (text "li") Interleaving.start (record { ret = refl; buffer = refl; moved = refl })
            (omega arith) refl)
          stores_own)
        (record { ret = refl; buffer = refl; moved = refl }) (omega arith) refl)
      stores_other

verdict-last_example :
    ((ret : ℤ)
      → verdict ret overwritten
        ≡ answer ret (Interleaving.judged_text fresh (text "other" ∷ text "linux" ∷ [])))
    × (length overwritten.kern_buff ≡ maxbuff)
    × (fresh.lock ≡ free → overwritten.lock ≡ free)
verdict-last_example =
    Interleaving.verdict-last fresh overwritten (text "other" ∷ text "linux" ∷ []) refl both_stored

-- `simple_read_from_buffer` on bytes that do not fault, for a process that asks for four each time.
abbrev simple_read_from_buffer : Fetch
simple_read_from_buffer len off available size = record {
  ret = pos (left len (length available - off));
  out = take (left len (length available - off)) (drop off available);
  off = off + left len (length available - off);
}

read_all-my_eud_id_example :
    (read_all simple_read_from_buffer (λ _. 4) 12 0 0 written ≡ some (written, text "HELLO WORLD"))
    × ((len off : ℕ)
        → MiscCharDev.my_read (simple_read_from_buffer len off) written
          ≡ some (written, Procfs.my_read (simple_read_from_buffer len off)))
read_all-my_eud_id_example =
    read_all-my_eud_id simple_read_from_buffer (λ _. 4) 12 written
      (λ len off t. record { ret = refl; out = refl; moved = refl }) (λ k. omega arith)
      (omega arith) refl

abbrev helpers : Helpers
helpers = record {
  simple_read_from_buffer = simple_read_from_buffer;
  simple_write_to_buffer = simple_write_to_buffer;
}

abbrev loaded : Node
loaded = record { device = fresh; f_pos = λ fd. none }

abbrev calls : List Call
calls = opens 3 ∷ writes 3 (text "linux") ∷ reads 3 20 ∷ closes 3 ∷ reads 3 20 ∷ []

run-misc_fops_example : run misc_fops helpers calls loaded ≡ run fops helpers calls loaded
run-misc_fops_example = run-misc_fops helpers calls loaded refl

abbrev replies_of : Option (Node × List Reply) → List Reply
replies_of none = []
replies_of (some r) = r.1

-- Writes and reads share the position of the file.
calls_test :
    replies_of (run misc_fops helpers calls loaded)
    ≡ returned (pos 0)
      ∷ returned (pos 5)
      ∷ record { ret = pos 6; out = text " WORLD" }
      ∷ returned (pos 0)
      ∷ returned ebadf
      ∷ []
unfolding run handle MiscCharDev.my_read MiscCharDev.my_write store_locked terminate verdict
    read_lock read_unlock write_lock write_unlock same_text
calls_test = refl
