-- ===== src/Vfs/Reader.antt =====
-- The init function of read_write_vfs.c, which reads a file into a buffer and prints it.
use kernel_modules_playgroun.Prelude.{
  ℕ, zero, suc, ◌-◌, ◌≤◌, ◌||◌, or-false, append-nil, Bool, false, ltb, ◌==◌, ◌≡◌, refl, ap, ◌∙◌,
  Option, none, some, [], ◌∷◌, ◌++◌, length, take, drop, ℤ, pos, ==_refl, arith,
}
use kernel_modules_playgroun.Prelude.Bytes.{Text, c_string}
use kernel_modules_playgroun.Lifecycle.Resources.{Pointer, valid, null, error_pointer}
use kernel_modules_playgroun.Vfs.Driver.{Segment, kernel_ds, Vfs, without}

abbrev pub buf_size : ℕ
buf_size = 256

-- The loop that clears the buffer.
abbrev pub zeros : ℕ → Text
zeros zero = []
zeros (suc n) = 0 ∷ zeros n

-- Whether a string that starts in the buffer ends in it.
abbrev pub has_null : Text → Bool
has_null [] = false
has_null (c ∷ cs) = (c == 0) || has_null cs

-- What is left and printed, whether the string ends in the buffer, and the result.
pub record Loaded : Type 0 where
  pub vfs : Vfs
  pub shown : Text
  pub ended : Bool
  pub ret : ℤ

-- What is done with the answer of `filp_open`; the use of an error pointer, and `filp_close` on
-- NULL, is a crash.
unfoldable pub read_file : Pointer → ℕ → (Segment → Text) → Vfs → Option Loaded
read_file null f read s = none
read_file error_pointer f read s = none
read_file valid f read s =
    let raised = record s { limit = kernel_ds; held = f ∷ s.held } in
    let bytes = take buf_size (read raised.limit) in
    let buf = bytes ++ drop (length bytes) (zeros buf_size) in
    let lowered = record raised { limit = s.limit } in
    some (record {
      vfs = record lowered { held = without f lowered.held };
      shown = c_string buf;
      ended = has_null buf;
      ret = pos 0;
    })

-- `filp_open` answers the file `f` or an error pointer, by the limit in force; `read` answers the
-- bytes that it puts into the buffer.
unfoldable pub init_module : (Segment → Pointer) → ℕ → (Segment → Text) → Vfs → Option Loaded
init_module filp_open f read s = read_file (filp_open s.limit) f read s

c_string-append : (bs cs : Text) → has_null bs ≡ false → c_string (bs ++ cs) ≡ bs ++ c_string cs
c_string-append [] cs plain = refl
c_string-append (b ∷ bs) cs plain =
    let (here, there) = or-false (b == 0) (has_null bs) plain in
    rw here (ap (λ r. b ∷ r) (c_string-append bs cs there))

has_null-append : (bs cs : Text) → has_null bs ≡ false → has_null (bs ++ cs) ≡ has_null cs
has_null-append [] cs plain = refl
has_null-append (b ∷ bs) cs plain =
    let (here, there) = or-false (b == 0) (has_null bs) plain in
    rw here (has_null-append bs cs there)

drop-zeros : (n m : ℕ) → drop n (zeros m) ≡ zeros (m - n)
drop-zeros zero m = let e : m ≡ m - 0 = omega arith in ap zeros e
drop-zeros (suc n) zero = let e : 0 ≡ 0 - suc n = omega arith in ap zeros e
drop-zeros (suc n) (suc m) =
    let e : m - n ≡ suc m - suc n = omega arith in drop-zeros n m ∙ ap zeros e

c_string-zeros : (k : ℕ) → c_string (zeros k) ≡ []
c_string-zeros zero = refl
c_string-zeros (suc k) = refl

has_null-zeros : (k : ℕ) → has_null (zeros k) ≡ ltb 0 k
has_null-zeros zero = refl
has_null-zeros (suc k) = ground arith

take_all : (n : ℕ) (bs : Text) → length bs ≤ n → take n bs ≡ bs
take_all zero [] l = refl
take_all zero (b ∷ bs) l = absurd (omega (arith, l))
take_all (suc n) [] l = refl
take_all (suc n) (b ∷ bs) l = ap (λ r. b ∷ r) (take_all n bs (omega (arith, l)))

-- The buffer with a text in it.
abbrev filled : Text → Text
filled bytes = bytes ++ drop (length bytes) (zeros buf_size)

filled-shown :
    (bytes : Text)
    → has_null bytes ≡ false
    → length bytes ≤ buf_size
    → (c_string (filled bytes) ≡ bytes) × (has_null (filled bytes) ≡ ltb (length bytes) buf_size)
filled-shown bytes plain fits =
    let rest = drop (length bytes) (zeros buf_size) in
    let clear = drop-zeros (length bytes) buf_size in
    (
      c_string-append bytes rest plain
          ∙ ap (λ r. bytes ++ r) (ap c_string clear ∙ c_string-zeros (buf_size - length bytes))
          ∙ append-nil bytes,
      has_null-append bytes rest plain
          ∙ ap has_null clear
          ∙ has_null-zeros (buf_size - length bytes)
          ∙ ground arith,
    )

-- What the init gives, by the answer of `filp_open`.
abbrev reads : Pointer → Text → Vfs → Option Loaded
reads valid bytes s =
    some (record { vfs = s; shown = bytes; ended = ltb (length bytes) buf_size; ret = pos 0 })
reads _ bytes s = none

read_file-reads :
    (p : Pointer) (f : ℕ) (read : Segment → Text) (s : Vfs)
    → has_null (read kernel_ds) ≡ false
    → length (read kernel_ds) ≤ buf_size
    → read_file p f read s ≡ reads p (read kernel_ds) s
unfolding read_file
read_file-reads null f read s plain fits = refl
read_file-reads error_pointer f read s plain fits = refl
read_file-reads valid f read s plain fits =
    let bytes = read kernel_ds in
    let (text, ended) = filled-shown bytes plain fits in
    rw (take_all buf_size bytes fits, text, ended, ==_refl) refl

-- The file is opened under the limit of the process, and read under that of the kernel. If it can
-- be opened and holds no null character within the 256 bytes of the buffer, the init prints its
-- text, closes it, leaves the limit and the open files as they were, and returns 0; but the string
-- ends in the buffer only if it has fewer than 256 bytes. If the file cannot be opened, it crashes.
pub init_module-reads :
    (filp_open : Segment → Pointer) (f : ℕ) (read : Segment → Text) (s : Vfs)
    → has_null (read kernel_ds) ≡ false
    → length (read kernel_ds) ≤ buf_size
    → init_module filp_open f read s ≡ reads (filp_open s.limit) (read kernel_ds) s
unfolding init_module
init_module-reads filp_open f read s plain fits =
    read_file-reads (filp_open s.limit) f read s plain fits
