-- ===== src/Simacc/Driver.antt =====
-- The buffers and the functions of file_proc.c.
use kernel_modules_playgroun.Prelude.{
  ℕ, zero, suc, ◌+◌, ◌-◌, ◌*◌, ◌/◌, ◌%◌, Bool, true, false, ◌&&◌, ◌==◌, leb, ltb, if◌then◌else◌,
  Option, none, some, List, [], ◌∷◌, ◌++◌, take, drop, set_at, length, ℤ, pos, enomem, efault, u64,
}
use kernel_modules_playgroun.Prelude.Bytes.{Text}

abbrev pub max_input_size : ℕ
max_input_size = 1024

-- The constant '&#92;&#48;', which the file has where '\0' is meant: ten characters, of which gcc
-- keeps the last four, `#48;`, as an `int`.
abbrev pub terminator : ℕ
terminator = 0x2334383b

-- What is left of it when it is assigned to a `char`: `;`.
abbrev pub terminator_char : ℕ
terminator_char = terminator % 256

-- The characters that `char result[16]` has room for, the 0 at the end included.
abbrev pub result_size : ℕ
result_size = 16

-- `input_buf`, the byte behind it, and the C string in `result`.
pub record Simacc : Type 0 where
  pub input_buf : List ℕ
  pub behind : ℕ
  pub result : Text
  pub registered : Bool

abbrev pub is_digit : ℕ → Bool
is_digit c = leb 48 c && leb c 57

-- The pattern of a `char`, which is signed, as an `int`.
abbrev pub char_to_int : ℕ → ℕ
char_to_int c = if ltb c 128 then c else c + 4294967040

-- The loop of `simacc_write` over what is left of the buffer, with `num` and `sum`.
unfoldable pub scan : List ℕ → ℕ → ℕ → ℕ
scan [] num sum = sum
scan (c ∷ cs) num sum =
    let num' = if is_digit c then u64 (num * 10 + (c - 48)) else 0 in
    let sum' = if is_digit c then sum else u64 (sum + num) in
    let rest = scan cs num' sum' in if char_to_int c == terminator then sum' else rest

-- `%lu`
unfoldable pub digits : ℕ → ℕ → Text → Text
digits zero n rest = rest
digits (suc fuel) n rest =
    let more = digits fuel (n / 10) ((48 + n % 10) ∷ rest) in
    if ltb n 10 then (48 + n) ∷ rest else more

-- A 64-bit number has at most 20 digits.
abbrev pub decimal : ℕ → Text
decimal n = digits 20 n []

-- How `copy_from_user` ends: all bytes copied, or a fault that has left `input_buf` with some
-- contents.
pub data CopyIn : Type 0 where
  copied : CopyIn
  faulted : List ℕ → CopyIn

-- `input_buf[len] = c`, which for `len == MAX_INPUT_SIZE` is the byte behind the buffer.
abbrev pub end_input : ℕ → Simacc → Simacc
end_input len s =
    if ltb len max_input_size
    then record s {
      input_buf = take len s.input_buf ++ terminator_char ∷ drop (suc len) s.input_buf;
    }
    else record s { behind = terminator_char }

-- `sprintf(result, "%lu", sum)`; `none`: the text and its 0 run over `result`.
abbrev pub print_result : Text → Simacc → Option Simacc
print_result t s = if ltb (length t) result_size then some (record s { result = t }) else none

abbrev pub with_length : ℤ → Option Simacc → Option (Simacc × ℤ)
with_length ret none = none
with_length ret (some s) = some (s, ret)

-- `none`: memory behind `result` is overwritten.
unfoldable pub simacc_write : CopyIn → List ℕ → Simacc → Option (Simacc × ℤ)
simacc_write copy buffer s =
    let count = length buffer in
    let len = if ltb max_input_size count then max_input_size else count in
    elim copy [
      | faulted left ↦ some (record s { input_buf = left }, efault)
      | copied ↦
          let t = record s { input_buf = take len buffer ++ drop len s.input_buf } in
          let u = end_input len t in
          with_length (pos len) (print_result (decimal (scan u.input_buf 0 0)) u)
    ]

-- `simacc_read` prints `result` and a line feed, whatever the offset and the room are.
unfoldable pub simacc_read : ℕ → ℕ → Simacc → Text × ℤ
simacc_read off count s = let page = s.result ++ 10 ∷ [] in (page, pos (length page))

-- `init_simacc`; the argument says whether `create_proc_entry` gave an entry. `result` is static:
-- behind the two characters stands a 0.
unfoldable pub init_simacc : Bool → Simacc → Simacc × ℤ
init_simacc created s =
    if created
    then (
      record s {
        input_buf = set_at s.input_buf (max_input_size - 1) terminator_char;
        result = 48 ∷ terminator_char ∷ [];
        registered = true;
      },
      pos 0,
    )
    else (s, enomem)

unfoldable pub cleanup_simacc : Simacc → Simacc
cleanup_simacc s = record s { registered = false }
