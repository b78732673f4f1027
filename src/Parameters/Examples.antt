-- ===== src/Parameters/Examples.antt =====
-- One number for the array, and the files of the parameters with a kernel that knows one number.
use kernel_modules_playgroun.Prelude.{
  ◌≡◌, refl, if◌then◌else◌, none, some, [], ◌∷◌, ◌++◌, pos, negsuc,
}
use kernel_modules_playgroun.Prelude.Bytes.{Text, text, same_text}
use kernel_modules_playgroun.SysfsCore.{
  enoent, eacces, owner, stranger, owner-IsAccess, stranger-IsAccess,
}
use kernel_modules_playgroun.Parameters.Driver.{
  Parameters, hello, a_short, an_int, a_long, a_string, element, got, defaults, hello_5_init,
}
use kernel_modules_playgroun.Parameters.Files.{
  ParamOps, find_param, parse_one, contents, refused, read_file, write_file,
}
use kernel_modules_playgroun.Parameters.Exposed.{
  SameFixed, write_file-SameFixed, read_file-myint, parse_one-given,
}
use kernel_modules_playgroun.Parameters.Given.{given, hello_5_init-given}

hello_5_init-given_test :
    hello_5_init (given (pos 7 ∷ []))
    ≡ hello
      ∷ a_short (pos 1)
      ∷ an_int (pos 420)
      ∷ a_long (pos 9999)
      ∷ a_string defaults.mystring
      ∷ element 0 (pos 7)
      ∷ element 1 (negsuc 0)
      ∷ got 1
      ∷ []
hello_5_init-given_test = hello_5_init-given (pos 7 ∷ [])

abbrev ops : ParamOps
ops = record {
  number = λ bits val. if same_text val (text "7") then some (pos 7) else none;
  string = some;
  numbers = λ most val. if same_text val (text "7") then some (pos 7 ∷ []) else none;
  print = λ z. text "7";
  print_all = λ zs. text "7";
}

write_file-SameFixed_test :
    SameFixed defaults (write_file ops owner (text "mylong") (text "7") defaults).0
write_file-SameFixed_test =
    write_file-SameFixed ops owner (text "mylong") (text "7") defaults owner-IsAccess

read_file-myint_test :
    (p' : Parameters) × (write_file ops owner (text "myint") (text "7") defaults ≡ (p', pos 1))
    × ((other : Text)
        → read_file ops stranger other p' ≡ (
            if same_text other (text "myint")
            then contents (text "7" ++ 10 ∷ [])
            else read_file ops stranger other defaults))
unfolding same_text
read_file-myint_test =
    read_file-myint ops owner stranger (text "7") (pos 7) defaults stranger-IsAccess refl refl

-- A stranger is refused myshort, and there is no file of mystring.
read_file-myshort_test : read_file ops stranger (text "myshort") defaults ≡ refused eacces
unfolding read_file find_param same_text
read_file-myshort_test = refl

read_file-mystring_test : read_file ops owner (text "mystring") defaults ≡ refused enoent
unfolding read_file find_param same_text
read_file-mystring_test = refl

parse_one-given_test :
    parse_one ops (text "myintArray") (text "7") defaults ≡ some (given (pos 7 ∷ []))
unfolding same_text
parse_one-given_test = parse_one-given ops (text "7") (pos 7 ∷ []) refl
