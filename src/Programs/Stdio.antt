-- ===== src/Programs/Stdio.antt =====
-- The standard output of a process, as the C library documents it: `printf` goes through a buffer
-- that is passed on at the end of a line if the output is a terminal, and at the end of the process
-- if it is a file or a pipe; `write(1, ...)` goes past the buffer.
use kernel_modules_playgroun.Prelude.{ℕ, Bool, List, [], ◌++◌, ℤ, if◌then◌else◌}
use kernel_modules_playgroun.Prelude.Bytes.{Text}

pub record Stdout : Type 0 where
  pub terminal : Bool
  pub buffered : Text
  pub sent : List ℕ

abbrev pub opened : Bool → Stdout
opened terminal = record { terminal = terminal; buffered = []; sent = [] }

-- `printf` of whole lines.
abbrev pub printf : Text → Stdout → Stdout
printf line out =
    if out.terminal
    then record out { sent = out.sent ++ line }
    else record out { buffered = out.buffered ++ line }

abbrev pub write_out : List ℕ → Stdout → Stdout
write_out bytes out = record out { sent = out.sent ++ bytes }

-- What a process has done when `main` has returned: what its standard output was given, the names
-- that `perror` printed, whether it has closed its file itself, and its status.
pub record Process : Type 0 where
  pub output : List ℕ
  pub complaints : List Text
  pub closed : Bool
  pub status : ℤ

-- The return from `main` passes on what is left in the buffer.
abbrev pub returns : Stdout → List Text → Bool → ℤ → Process
returns out complaints closed status = record {
  output = out.sent ++ out.buffered;
  complaints = complaints;
  closed = closed;
  status = status;
}
