-- ===== src/Parameters/Driver.antt =====
-- The variables and the init function of parameters.c. What the kernel makes of the command line is
-- in the variables when the init runs.
use kernel_modules_playgroun.Prelude.{
  ℕ, zero, suc, List, [], ◌∷◌, ◌++◌, length, get_or, ℤ, pos, negsuc,
}
use kernel_modules_playgroun.Prelude.Bytes.{Text, text}

pub record Parameters : Type 0 where
  pub myshort : ℤ
  pub myint : ℤ
  pub mylong : ℤ
  pub mystring : Text
  pub my_int_array : List ℤ
  pub arr_argc : ℕ

abbrev pub defaults : Parameters
defaults = record {
  myshort = pos 1;
  myint = pos 420;
  mylong = pos 9999;
  mystring = text "blah";
  my_int_array = negsuc 0 ∷ negsuc 0 ∷ [];
  arr_argc = 0;
}

pub data Line : Type 0 where
  hello : Line
  a_short an_int a_long : ℤ → Line
  a_string : Text → Line
  element : ℕ → ℤ → Line
  got : ℕ → Line

-- The loop over the array, with `remaining` rounds to go at `i`.
unfoldable pub elements : List ℤ → ℕ → ℕ → List Line
elements array zero i = []
elements array (suc remaining) i =
    element i (get_or array i (pos 0)) ∷ elements array remaining (suc i)

-- The lines; it returns 0.
unfoldable pub hello_5_init : Parameters → List Line
hello_5_init p =
    (hello ∷ a_short p.myshort ∷ an_int p.myint ∷ a_long p.mylong ∷ a_string p.mystring ∷ [])
    ++ (elements p.my_int_array (length p.my_int_array) 0 ++ (got p.arr_argc ∷ []))
