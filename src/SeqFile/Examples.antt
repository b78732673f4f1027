-- ===== src/SeqFile/Examples.antt =====
-- Two rounds over three tasks.
use kernel_modules_playgroun.Prelude.{◌*◌, ◌≡◌, [], ◌∷◌, length, take, arith}
use kernel_modules_playgroun.Prelude.Bytes.{text}
use kernel_modules_playgroun.SeqFile.Driver.{Tasks, ring, my_start, records}
use kernel_modules_playgroun.SeqFile.Files.{swaps_op, reads, repeat, reads-repeat}
use kernel_modules_playgroun.SeqFile.Rounds.{round, rounds, records-rounds}

abbrev tasks : Tasks
tasks = record {
  current = record { pid = 812; comm = text "cat" };
  others = record { pid = 0; comm = text "swapper" } ∷ record { pid = 1; comm = text "init" } ∷ [];
}

records-rounds_test :
    records (2 * length (ring tasks)) tasks (my_start tasks 7) 7 ≡ (rounds 2 tasks, 0)
records-rounds_test = records-rounds 2 tasks 7

-- Four reads with room for two of the three tasks.
reads-repeat_example : reads swaps_op 4 2 tasks 0 ≡ repeat 4 (take 2 (round tasks))
reads-repeat_example = reads-repeat 4 2 tasks 0 (omega arith)
