-- ===== src/Parameters/Given.antt =====
-- What parameters.c prints for an array from the command line.
use kernel_modules_playgroun.Prelude.{
  suc, ◌≡◌, refl, sym, ap, ap₂, ◌∙◌, ℕ, List, [], ◌∷◌, ◌++◌, length, length-append, get_or-append,
  append_assoc, drop, ℤ, pos, arith,
}
use kernel_modules_playgroun.Parameters.Driver.{
  Parameters, defaults, Line, hello, a_short, an_int, a_long, a_string, element, got, elements,
  hello_5_init,
}

-- Each element of a list with its index.
abbrev pub numbered : ℕ → List ℤ → List Line
numbered i [] = []
numbered i (v ∷ vs) = element i v ∷ numbered (suc i) vs

elements-numbered :
    (xs ys : List ℤ) → elements (xs ++ ys) (length ys) (length xs) ≡ numbered (length xs) ys
unfolding elements
elements-numbered xs [] = refl
elements-numbered xs (y ∷ ys) =
    let longer : length (xs ++ y ∷ []) ≡ suc (length xs) =
      length-append xs (y ∷ []) ∙ omega arith in
    ap₂ (λ v rest. element (length xs) v ∷ rest) (get_or-append xs ys y (pos 0))
      (ap₂ (λ zs i. elements zs (length ys) i) (sym (append_assoc xs (y ∷ []) ys)) (sym longer)
        ∙ elements-numbered (xs ++ y ∷ []) ys
        ∙ ap (λ i. numbered i ys) longer)

-- What the kernel makes of `myintArray=` with one or two numbers.
abbrev pub given : List ℤ → Parameters
given vs = record defaults {
  my_int_array = vs ++ drop (length vs) defaults.my_int_array;
  arr_argc = length vs;
}

-- With numbers for the array on the command line, the init prints them with their indices, then -1
-- for what was not given, and how many were given; the other variables are the defaults.
pub hello_5_init-given :
    (vs : List ℤ)
    → hello_5_init (given vs)
      ≡ (hello
          ∷ a_short (pos 1)
          ∷ an_int (pos 420)
          ∷ a_long (pos 9999)
          ∷ a_string defaults.mystring
          ∷ [])
        ++ (numbered 0 (vs ++ drop (length vs) defaults.my_int_array) ++ (got (length vs) ∷ []))
unfolding hello_5_init
hello_5_init-given vs =
    ap
      (λ ls.
        (hello
          ∷ a_short (pos 1)
          ∷ an_int (pos 420)
          ∷ a_long (pos 9999)
          ∷ a_string defaults.mystring
          ∷ [])
        ++ (ls ++ (got (length vs) ∷ [])))
      (elements-numbered [] (vs ++ drop (length vs) defaults.my_int_array))
