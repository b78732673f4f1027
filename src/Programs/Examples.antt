-- ===== src/Programs/Examples.antt =====
-- Concrete runs of the user programs.
use kernel_modules_playgroun.Simacc.Driver.{digits}
use kernel_modules_playgroun.Prelude.{
  ℕ, ◌==◌, ◌≡◌, refl, true, false, if◌then◌else◌, none, some, List, [], ◌∷◌, ◌++◌, reverse, arith,
  pos, negsuc,
}
use kernel_modules_playgroun.Prelude.Bytes.{text, same_text}
use kernel_modules_playgroun.Programs.Stdio.{Process}
use kernel_modules_playgroun.Keylog.Driver.{
  Keylog, keylog_open, read_start, testirq_handler, log_key, wakes, keys_logged,
}
use kernel_modules_playgroun.Keylog.Keys.{Ports, codes, interrupts, calls}
use kernel_modules_playgroun.Programs.KeylogTest.{opened_line, main}
use kernel_modules_playgroun.Programs.Session.{session, placed, session-output, session-interrupted}
use kernel_modules_playgroun.Programs.Manager
use kernel_modules_playgroun.Programs.Manager.{System, IsSystem}

-- A loaded driver, over memory full of 7.
abbrev driver : Keylog
driver = record {
  kbuf = 0;
  keys = 0;
  device = record { data_port = 0; status_port = 0 };
  intr_registered = 0;
  memory = λ a. 7;
  blocks = [];
  freed = [];
  handlers = 0;
  completions = 0;
  woken = false;
  registered = true;
}

-- A key on the data port.
abbrev key : ℕ → Ports
key c = λ port. if port == 0x60 then c else 0

abbrev nine : List Ports
nine = key 2 ∷ key 3 ∷ key 4 ∷ key 5 ∷ key 6 ∷ key 7 ∷ key 8 ∷ key 9 ∷ key 10 ∷ []

session-output_example :
    (s' : Keylog) × (process : Process) × (session false 3 4096 (key 1 ∷ nine) (pos 0) driver
      ≡ some (s', process))
    × (process.output ≡ placed false 3 (7 ∷ reverse (codes 0x60 nine)))
    × (process.complaints ≡ [])
    × (process.status ≡ pos 0)
    × (s'.blocks ≡ [])
    × (s'.handlers ≡ 0)
    × (s'.intr_registered ≡ 0)
session-output_example =
    session-output false 3 4096 driver (λ e. absurd (omega arith)) (omega arith) (key 1 ∷ nine)
      (key 1) nine (omega arith) refl refl

session-interrupted_test :
    (s' : Keylog) × (process : Process) × (session true 3 4096 (key 1 ∷ []) (negsuc 511) driver
      ≡ some (s', process))
    × (process.output ≡ opened_line 3)
    × (process.complaints ≡ text "read" ∷ [])
    × (process.status ≡ negsuc 0)
    × (s'.blocks ≡ (4096, 10) ∷ [])
    × (s'.handlers ≡ 0)
    × (s'.intr_registered ≡ 0)
session-interrupted_test =
    session-interrupted true 3 4096 driver (λ e. absurd (omega arith)) (omega arith) (key 1 ∷ [])
      511

-- Nine keys are not enough: the program waits on.
waiting_test : session false 3 4096 nine (pos 0) driver ≡ none
unfolding session same_text keylog_open read_start interrupts calls testirq_handler log_key wakes
    keys_logged
waiting_test = refl

-- /dev/keylog cannot be opened.
unopened_test :
    main true none none
    ≡ record { output = []; complaints = text "open" ∷ []; closed = false; status = negsuc 0 }
unfolding main
unopened_test = refl

-- Memory full of 65, of which 30 bytes are read.
abbrev letters : List ℕ
letters =
    65 ∷ 65 ∷ 65 ∷ 65 ∷ 65 ∷ 65 ∷ 65 ∷ 65 ∷ 65 ∷ 65 ∷ 65 ∷ 65 ∷ 65 ∷ 65 ∷ 65 ∷ 65 ∷ 65 ∷ 65 ∷ 65
    ∷ 65 ∷ 65 ∷ 65 ∷ 65 ∷ 65 ∷ 65 ∷ 65 ∷ 65 ∷ 65 ∷ 65 ∷ 65 ∷ []

abbrev os : System
os = record { open_answer = some 3; write_answer = λ fd. some 5; read_answer = λ fd. some letters }

main-overruns_test :
    (Manager.main os true (letters ++ (66 ∷ 0 ∷ []))).output
    ≡ (text "3" ++ 10 ∷ []) ++ ((letters ++ 66 ∷ []) ++ (text " -- 30" ++ 10 ∷ []))
unfolding Manager.main digits
main-overruns_test = refl
