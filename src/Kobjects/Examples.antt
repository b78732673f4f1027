-- ===== src/Kobjects/Examples.antt =====
-- Concrete uses of the attributes of kobjects.c.
use kernel_modules_playgroun.Prelude.{
  ℕ, ◌≡◌, inl, refl, if◌then◌else◌, none, some, [], ◌∷◌, ◌++◌, length, arith, pos, signed32,
}
use kernel_modules_playgroun.Prelude.Bytes.{Text, text, same_text}
use kernel_modules_playgroun.Prelude.Scanf.{scan_word}
use kernel_modules_playgroun.SysfsCore.{eacces, enoent, owner, stranger, stranger-IsAccess}
use kernel_modules_playgroun.Kobjects.Files.{contents, refused, read_file, write_file}
use kernel_modules_playgroun.Kobjects.Directory.{read_file-write_file}
use kernel_modules_playgroun.Kobjects.Types.{Written, write_file-Written}
use kernel_modules_playgroun.Kobjects.Driver.{
  Kobjects, print_int, scan_int, foo_show, foo_store, b_show, b_store,
}
use kernel_modules_playgroun.Kobjects.Attributes.{other, b_show-b_store, b_store-uninitialised}

abbrev loaded : Kobjects
loaded = record { foo = []; baz = 0; bar = 0 }

-- -5 as a 32-bit pattern.
abbrev minus_five : ℕ
minus_five = 4294967291

b_show-b_store_test :
    (b_show
        (text "baz")
        (b_store (text "baz") (print_int (signed32 minus_five) ++ 10 ∷ []) 3 99 loaded).0
      ≡ print_int (signed32 minus_five) ++ 10 ∷ [])
    × (b_show
          (other (text "baz"))
          (b_store (text "baz") (print_int (signed32 minus_five) ++ 10 ∷ []) 3 99 loaded).0
        ≡ b_show (other (text "baz")) loaded)
    × (foo_show (b_store (text "baz") (print_int (signed32 minus_five) ++ 10 ∷ []) 3 99 loaded).0
        ≡ foo_show loaded)
b_show-b_store_test = b_show-b_store (text "baz") minus_five 3 99 loaded (omega arith)

b_store-uninitialised_test :
    ((b_store (text "bar") (text "x") 1 99 loaded).1 ≡ pos 1)
    × (b_show (text "bar") (b_store (text "bar") (text "x") 1 99 loaded).0
        ≡ print_int (signed32 99) ++ 10 ∷ [])
unfolding scan_int
b_store-uninitialised_test = b_store-uninitialised (text "bar") (text "x") 1 99 loaded refl

abbrev line : Text
line = print_int (signed32 minus_five) ++ 10 ∷ []

-- The owner writes to baz, and a stranger reads.
read_file-write_file_example :
    (s' : Kobjects) × (write_file owner (text "baz") line 99 loaded ≡ some (s', pos (length line)))
    × ((other : Text)
        → read_file stranger other s' ≡ (
            if same_text other (text "baz")
            then contents line
            else read_file stranger other loaded))
read_file-write_file_example =
    read_file-write_file owner stranger (text "baz") minus_five 99 loaded stranger-IsAccess refl
      (inl refl) (omega arith)

write_file-Written_example :
    Written
      (text "foo")
      (text "abcdefghijk")
      (write_file owner (text "foo") (text "abcdefghijk") 99 loaded)
write_file-Written_example =
    write_file-Written owner (text "foo") (text "abcdefghijk") 99 loaded (omega arith)
      (record { foo = omega arith; baz = omega arith; bar = omega arith })

-- A stranger may not write baz, and there is no file qux.
stranger_test : write_file stranger (text "baz") line 99 loaded ≡ some (loaded, eacces)
unfolding write_file same_text
stranger_test = refl

missing_test : read_file owner (text "qux") loaded ≡ refused enoent
unfolding read_file same_text
missing_test = refl

overrun_test : write_file stranger (text "foo") (text "abcdefghijk") 99 loaded ≡ none
unfolding write_file same_text foo_store scan_word
overrun_test = refl
