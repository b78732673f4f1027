-- ===== src/Programs/Session.antt =====
-- keyboard_interrupt_misc_device_test.c on the driver of keyboard_interrupt_misc_device.c.
use kernel_modules_playgroun.Prelude.{
  ℕ, u32, not, ◌&&◌, suc, ◌+◌, ◌<◌, ◌≡◌, ◌≢◌, refl, sym, ap, ◌∙◌, Bool, true, false, if◌then◌else◌,
  ==_refl, Option, none, some, List, [], ◌∷◌, ◌++◌, append-nil, append_assoc, reverse, length,
  arith, ℤ, pos, negsuc,
}
use kernel_modules_playgroun.Prelude.Bytes.{Text, text, same_text}
use kernel_modules_playgroun.Keylog.Driver.{
  Keylog, keylog_open, keylog_close, read_start, read_finish, wakes, is_zero, pred,
}
use kernel_modules_playgroun.Keylog.Files.{FileOperations, keylog_dev, path_of}
use kernel_modules_playgroun.Keylog.Keys.{
  Ports, codes, each, calls, interrupts, interrupts-calls, calls-handlers, calls-wakes, Logged,
  calls-Logged, read_finish-copied,
}
use kernel_modules_playgroun.Programs.Stdio.{Process, opened, printf, returns}
use kernel_modules_playgroun.Programs.KeylogTest.{device_path, opened_line, read_line, main}

-- What the C library makes of the answer to a read: the bytes, or -1.
abbrev pub answered : ℤ → List ℕ → Option (List ℕ)
answered (pos n) copied = some copied
answered (negsuc n) copied = none

-- The driver and the program, whose read of 10 bytes starts after the `open`, with the handler in
-- place, and a buffer at `block`. `keys` are the interrupts until the wait ends, and `ret` is the
-- result of the wait; `none` if it is 0 and the driver does not end the wait. The kernel closes the
-- file with the process where `main` does not.
abbrev pub session_on :
    FileOperations → Bool → ℕ → ℕ → List Ports → ℤ → Keylog → Option (Keylog × Process)
session_on fops terminal fd block keys ret s =
    let begun = fops.read_start block 10 (fops.on_open true s).0 in
    let waiting = interrupts keys begun in
    let (left, reply) = fops.read_finish ret 0 10 0 waiting in
    if is_zero ret && not (wakes begun waiting)
    then none
    else some ((fops.on_release left).0, main terminal (some fd) (answered reply.ret reply.copied))

-- The program finds the device by its path.
unfoldable pub session : Bool → ℕ → ℕ → List Ports → ℤ → Keylog → Option (Keylog × Process)
unfolding same_text
session terminal fd block keys ret s =
    if same_text device_path (path_of keylog_dev)
    then session_on keylog_dev.operations terminal fd block keys ret s
    else some (s, main terminal none none)

-- Where the bytes stand among the lines.
abbrev pub placed : Bool → ℕ → List ℕ → List ℕ
placed terminal fd bytes =
    if terminal
    then opened_line fd ++ (read_line 10 ++ bytes)
    else bytes ++ (opened_line fd ++ read_line 10)

main-output :
    (terminal : Bool) (fd : ℕ) (copied bytes : List ℕ)
    → copied ≡ bytes
    → length bytes ≡ 10
    → (main terminal (some fd) (some copied)).output ≡ placed terminal fd bytes
unfolding main
main-output true fd copied bytes e n =
    rw (e, n, append-nil) (append_assoc (opened_line fd) (read_line 10) bytes)
main-output false fd copied bytes e n = rw (e, n) refl

printed_once :
    (terminal : Bool) (line : Text)
    → (returns (printf line (opened terminal)) [] true (pos 0)).output ≡ line
printed_once true line = append-nil line
printed_once false line = refl

module _ (terminal : Bool) (fd p : ℕ) (s : Keylog) (nonzero : p ≢ 0)
    (small : s.intr_registered < 4294967296) where
  -- The program reads 10 keys from /dev/keylog, into a buffer that `kmalloc` has given below the
  -- end of the address space, and with fewer than 2^32 opened files. At each interrupt the handler
  -- is called once for each open file, this one included, and after ten calls the driver has woken
  -- the program. Beside its two lines it writes the byte that the buffer's memory held before, and
  -- the keys of the calls backwards without the first: behind the lines on a terminal, and before
  -- them in a file. It reports no error and returns 0, and the driver is left with the blocks,
  -- handlers and count of open files that it had.
  pub session-output :
      (keys : List Ports) (first : Ports) (bs : List Ports)
      → p + 10 < 18446744073709551616
      → each (s.handlers + 1) keys ≡ first ∷ bs
      → length bs ≡ 9
      → (s' : Keylog) × (process : Process) × (session terminal fd p keys (pos 0) s
          ≡ some (s', process))
        × (process.output ≡ placed terminal fd (s.memory p ∷ reverse (codes 0x60 bs)))
        × (process.complaints ≡ [])
        × (process.status ≡ pos 0)
        × (s'.blocks ≡ s.blocks)
        × (s'.handlers ≡ s.handlers)
        × (s'.intr_registered ≡ s.intr_registered)
  unfolding session keylog_open keylog_close read_finish read_start main
  session-output keys first bs fits called size =
      let o : Keylog = (keylog_open true s).0 in
      let started : Keylog = read_start p 10 o in
      let waiting : Keylog = interrupts keys started in
      let finished = read_finish (pos 0) 0 10 0 waiting in
      let begun : started.blocks ≡ (p, 10) ∷ s.blocks = ground arith in
      let next : s.handlers + 1 ≡ suc s.handlers = omega arith in
      let as_calls : waiting ≡ calls (first ∷ bs) started =
        interrupts-calls keys started ∙ ap (λ ks. calls ks started) called in
      let l : Logged p 0 (first ∷ bs) started waiting = rw as_calls (
        calls-Logged (first ∷ bs) p 0 started
          (refl, omega arith, nonzero, omega arith, omega arith)) in
      let copied =
        ap (λ w. (read_finish (pos 0) 0 10 0 w).1.copied) as_calls
        ∙ read_finish-copied p 10 o nonzero fits (omega arith) first bs 0 (omega arith) in
      let same = calls-handlers (first ∷ bs) started in
      let woken =
        ap (wakes started) as_calls
        ∙ calls-wakes p 10 o nonzero fits (omega arith) (first ∷ bs) (omega arith) in
      (
        (keylog_close finished.0).0,
        main terminal (some fd) (answered finished.1.ret finished.1.copied),
        rw woken refl,
        main-output terminal fd _ _ copied (ap length (sym copied)),
        refl,
        refl,
        rw (l.room.0, l.blocks, begun, ==_refl p) refl,
        ap (λ w. pred w.handlers) as_calls ∙ rw same.0 (ap pred next),
        ap (λ w. u32 (w.intr_registered + 4294967295)) as_calls ∙ rw same.1 (omega arith),
      )

  -- With a signal before the keys have come, however many have, and fewer than 2^32 opened files:
  -- the program writes the first line only, reports the error of `read` and returns -1. The driver
  -- is left with the handlers and count of open files that it had, and with the buffer, which
  -- nothing frees.
  pub session-interrupted :
      (keys : List Ports) (n : ℕ)
      → (s' : Keylog) × (process : Process) × (session terminal fd p keys (negsuc n) s
          ≡ some (s', process))
        × (process.output ≡ opened_line fd)
        × (process.complaints ≡ text "read" ∷ [])
        × (process.status ≡ negsuc 0)
        × (s'.blocks ≡ (p, 10) ∷ s.blocks)
        × (s'.handlers ≡ s.handlers)
        × (s'.intr_registered ≡ s.intr_registered)
  unfolding session keylog_open keylog_close read_finish read_start main
  session-interrupted keys n =
      let started : Keylog = read_start p 10 (keylog_open true s).0 in
      let begun : started.blocks ≡ (p, 10) ∷ s.blocks = ground arith in
      let next : s.handlers + 1 ≡ suc s.handlers = omega arith in
      let as_calls = interrupts-calls keys started in
      let same = calls-handlers (each (s.handlers + 1) keys) started in
      (
        _,
        _,
        refl,
        printed_once terminal (opened_line fd),
        refl,
        refl,
        ap (λ w. w.blocks) as_calls ∙ same.2 ∙ begun,
        ap (λ w. pred w.handlers) as_calls ∙ rw same.0 (ap pred next),
        ap (λ w. u32 (w.intr_registered + 4294967295)) as_calls ∙ rw same.1 (omega arith),
      )
