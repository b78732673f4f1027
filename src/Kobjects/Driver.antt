-- ===== src/Kobjects/Driver.antt =====
-- The show and store functions of kobjects.c.
use kernel_modules_playgroun.Prelude.{
  ℕ, suc, ◌+◌, ◌-◌, ◌*◌, ◌==◌, ltb, if◌then◌else◌, Option, none, some, [], ◌∷◌, ◌++◌, length, ℤ,
  pos, negsuc, signed32, u32, u64,
}
use kernel_modules_playgroun.Prelude.Bytes.{Text, text, same_text}
use kernel_modules_playgroun.Prelude.Scanf.{skip_spaces, scan_word}
use kernel_modules_playgroun.Simacc.Driver.{is_digit, decimal}

-- `foo` as a C string; `baz` and `bar` as 32-bit patterns.
pub record Kobjects : Type 0 where
  pub foo : Text
  pub baz : ℕ
  pub bar : ℕ

-- `simple_strtoul` in base 10.
unfoldable pub read_digits : ℕ → Text → ℕ
read_digits n [] = n
read_digits n (c ∷ cs) =
    let rest = read_digits (u64 (n * 10 + (c - 48))) cs in if is_digit c then rest else n

abbrev pub magnitude : Text → Option ℕ
magnitude [] = none
magnitude (c ∷ cs) = if is_digit c then some (u32 (read_digits 0 (c ∷ cs))) else none

abbrev pub negative : Option ℕ → Option ℕ
negative none = none
negative (some n) = some (u32 (4294967296 - n))

abbrev pub signed_number : Text → Option ℕ
signed_number [] = none
signed_number (c ∷ cs) = if c == 45 then negative (magnitude cs) else magnitude (c ∷ cs)

-- The number that `sscanf(buf, "%du", &var)` stores, as a 32-bit pattern; `none` if it stores none.
-- The `u` behind `%d` is a character to be matched after the number and has no effect on it.
unfoldable pub scan_int : Text → Option ℕ
scan_int buf = signed_number (skip_spaces buf)

-- `%d`
abbrev pub print_int : ℤ → Text
print_int (pos n) = decimal n
print_int (negsuc n) = 45 ∷ decimal (suc n)

unfoldable pub foo_show : Kobjects → Text
foo_show s = s.foo ++ 10 ∷ []

-- `none`: the word is written behind `foo`.
unfoldable pub foo_store : Text → ℕ → Kobjects → Option (Kobjects × ℤ)
foo_store buf count s = elim (scan_word buf) [
  | none ↦ some (s, pos count)
  | some w ↦ if ltb (length w) 10 then some (record s { foo = w }, pos count) else none
]

unfoldable pub b_show : Text → Kobjects → Text
b_show name s =
    let var = if same_text name (text "baz") then s.baz else s.bar in
    print_int (signed32 var) ++ 10 ∷ []

-- `uninitialised` is what `var` holds when it is declared.
unfoldable pub b_store : Text → Text → ℕ → ℕ → Kobjects → Kobjects × ℤ
b_store name buf count uninitialised s =
    let var : ℕ = elim (scan_int buf) [ none ↦ uninitialised | some n ↦ n ] in
    if same_text name (text "baz")
    then (record s { baz = var }, pos count)
    else (record s { bar = var }, pos count)
