-- ===== src/Memory/Files.antt =====
-- /dev/memory of chardev_fops.c as several processes use it, each with files of its own.
use kernel_modules_playgroun.Prelude.{
  ℕ, Bool, true, false, ◌==◌, if◌then◌else◌, Option, none, some, List, [], ◌∷◌, ℤ, pos, negsuc,
  einval,
}
use kernel_modules_playgroun.Memory.Driver.{User, Answer, memory_read, memory_write}

-- `memory_open` and `memory_release` only log.
unfoldable pub memory_open : ℤ
memory_open = pos 0

unfoldable pub memory_release : ℤ
memory_release = pos 0

-- `struct file_operations`; `none` is NULL.
pub record FileOperations : Type 0 where
  pub read : Option (Bool → ℕ → ℕ → Answer)
  pub write : Option (User → ℕ → ℕ → ℕ → ℕ × ℕ)
  pub on_open : Option ℤ
  pub on_release : Option ℤ

abbrev pub memory_fops : FileOperations
memory_fops = record {
  read = some memory_read;
  write = some memory_write;
  on_open = some memory_open;
  on_release = some memory_release;
}

-- The byte at `memory_buffer`, and the position of each open file.
pub record Node : Type 0 where
  pub memory_buffer : ℕ
  pub f_pos : ℕ → Option ℕ

-- A system call on the file `fd`. `writable` says whether the byte of a read can be stored in the
-- memory of the process.
pub data Call : Type 0 where
  opens : (fd : ℕ) → Call
  reads : (fd : ℕ) (writable : Bool) → Call
  writes : (fd : ℕ) (user : User) (buf count : ℕ) → Call
  closes : (fd : ℕ) → Call

-- What a call returns, and the byte that it has stored in the memory of the process.
pub record Reply : Type 0 where
  pub ret : ℤ
  pub sent : Option ℕ

abbrev pub returned : ℤ → Reply
returned ret = record { ret = ret; sent = none }

abbrev pub ebadf : ℤ
ebadf = negsuc 8

abbrev pub put : (ℕ → Option ℕ) → ℕ → Option ℕ → ℕ → Option ℕ
put f_pos fd p g = if g == fd then p else f_pos g

abbrev pub succeeds : Option ℤ → Bool
succeeds none = true
succeeds (some (pos n)) = n == 0
succeeds (some (negsuc n)) = false

abbrev pub result : Option ℤ → ℤ
result none = pos 0
result (some r) = r

-- The calls through the table. A file has the position 0 when it is opened; a call that the table
-- has no function for is refused.
abbrev pub call_open : FileOperations → ℕ → Node → Node × Reply
call_open fops fd node = (
  if succeeds fops.on_open then record node { f_pos = put node.f_pos fd (some 0) } else node,
  returned (result fops.on_open),
)

abbrev pub call_read : Option (Bool → ℕ → ℕ → Answer) → ℕ → Bool → Option ℕ → Node → Node × Reply
call_read read fd writable none node = (node, returned ebadf)
call_read none fd writable (some f_pos) node = (node, returned einval)
call_read (some read) fd writable (some f_pos) node =
    let answer = read writable f_pos node.memory_buffer in
    (
      record node { f_pos = put node.f_pos fd (some answer.f_pos) },
      record { ret = pos answer.retval; sent = answer.sent },
    )

abbrev pub call_write :
    Option (User → ℕ → ℕ → ℕ → ℕ × ℕ) → User → ℕ → ℕ → Option ℕ → Node → Node × Reply
call_write write user buf count none node = (node, returned ebadf)
call_write none user buf count (some f_pos) node = (node, returned einval)
call_write (some write) user buf count (some f_pos) node =
    let (byte, retval) = write user buf count node.memory_buffer in
    (record node { memory_buffer = byte }, returned (pos retval))

abbrev pub call_close : FileOperations → ℕ → Option ℕ → Node → Node × Reply
call_close fops fd none node = (node, returned ebadf)
call_close fops fd (some f_pos) node =
    (record node { f_pos = put node.f_pos fd none }, returned (result fops.on_release))

unfoldable pub handle : FileOperations → Call → Node → Node × Reply
handle fops (opens fd) node = call_open fops fd node
handle fops (reads fd writable) node = call_read fops.read fd writable (node.f_pos fd) node
handle fops (writes fd user buf count) node =
    call_write fops.write user buf count (node.f_pos fd) node
handle fops (closes fd) node = call_close fops fd (node.f_pos fd) node

unfoldable pub run : FileOperations → List Call → Node → List Reply
run fops [] node = []
run fops (c ∷ cs) node = let (node', reply) = handle fops c node in reply ∷ run fops cs node'
