-- ===== src/Parameters/Files.antt =====
-- The module_param lines of parameters.c: each variable under a name, for the command line, and with
-- a mode, for the directory /sys/module/parameters/parameters.
use kernel_modules_playgroun.Prelude.{
  ℕ, Bool, ◌==◌, ◌&&◌, if◌then◌else◌, Option, none, some, List, [], ◌∷◌, ◌++◌, length, drop, ℤ, pos,
  negsuc,
}
use kernel_modules_playgroun.Prelude.Bytes.{Text, text, same_text}
use kernel_modules_playgroun.SysfsCore.{enoent, eacces, Mode, mode, Access}
use kernel_modules_playgroun.Parameters.Driver.{Parameters}

abbrev pub einval : ℤ
einval = negsuc 21

-- What the kernel makes of a text for a number of so many bits, for a string, and for an array of at
-- most so many `int`; and its text for a number and for an array.
pub record ParamOps : Type 0 where
  pub number : ℕ → Text → Option ℤ
  pub string : Text → Option Text
  pub numbers : ℕ → Text → Option (List ℤ)
  pub print : ℤ → Text
  pub print_all : List ℤ → Text

pub record KernelParam : Type 0 where
  pub name : Text
  pub mode : Mode
  pub set : ParamOps → Text → Parameters → Option Parameters
  pub get : ParamOps → Parameters → Text

abbrev pub assign : {A : Type 0} → (A → Parameters) → Option A → Option Parameters
assign f none = none
assign f (some x) = some (f x)

abbrev pub myshort_param : KernelParam
myshort_param = record {
  name = text "myshort";
  mode = mode 6 6 0;
  set = λ ops val p. assign (λ z. record p { myshort = z }) (ops.number 16 val);
  get = λ ops p. ops.print p.myshort;
}

abbrev pub myint_param : KernelParam
myint_param = record {
  name = text "myint";
  mode = mode 6 4 4;
  set = λ ops val p. assign (λ z. record p { myint = z }) (ops.number 32 val);
  get = λ ops p. ops.print p.myint;
}

abbrev pub mylong_param : KernelParam
mylong_param = record {
  name = text "mylong";
  mode = mode 4 0 0;
  set = λ ops val p. assign (λ z. record p { mylong = z }) (ops.number 64 val);
  get = λ ops p. ops.print p.mylong;
}

abbrev pub mystring_param : KernelParam
mystring_param = record {
  name = text "mystring";
  mode = mode 0 0 0;
  set = λ ops val p. assign (λ t. record p { mystring = t }) (ops.string val);
  get = λ ops p. p.mystring;
}

-- The elements that are not given keep their values, and `arr_argc` gets the number of those given.
abbrev pub my_int_array_param : KernelParam
my_int_array_param = record {
  name = text "myintArray";
  mode = mode 0 0 0;
  set = λ ops val p.
      assign
        (λ vs. record p {
          my_int_array = vs ++ drop (length vs) p.my_int_array;
          arr_argc = length vs;
        })
        (ops.numbers (length p.my_int_array) val);
  get = λ ops p. ops.print_all p.my_int_array;
}

abbrev pub params : List KernelParam
params = myshort_param ∷ myint_param ∷ mylong_param ∷ mystring_param ∷ my_int_array_param ∷ []

unfoldable pub find_param : Text → List KernelParam → Option KernelParam
find_param name [] = none
find_param name (a ∷ rest) = if same_text name a.name then some a else find_param name rest

-- One `name=val` of the command line; a module with a value that does not fit is not loaded.
abbrev pub set_found : ParamOps → Option KernelParam → Text → Parameters → Option Parameters
set_found ops none val p = none
set_found ops (some a) val p = a.set ops val p

unfoldable pub parse_one : ParamOps → Text → Text → Parameters → Option Parameters
unfolding find_param
parse_one ops name val p = set_found ops (find_param name params) val p

-- A parameter has a file if its mode is not zero.
abbrev pub hidden : Mode → Bool
hidden m = m.owner == 0 && (m.group == 0 && m.others == 0)

-- What a process gets from a file that it opens and reads to the end, and what its write returns.
pub data Contents : Type 0 where
  contents : Text → Contents
  refused : ℤ → Contents

abbrev pub written : ℕ → Option Parameters → Parameters → Parameters × ℤ
written count none p = (p, einval)
written count (some p') p = (p', pos count)

abbrev pub read_param : ParamOps → Access → Option KernelParam → Parameters → Contents
read_param ops access none p = refused enoent
read_param ops access (some a) p =
    if hidden a.mode
    then refused enoent
    else if access.readable a.mode
    then contents (a.get ops p ++ 10 ∷ [])
    else refused eacces

abbrev pub write_param : ParamOps → Access → Option KernelParam → Text → Parameters → Parameters × ℤ
write_param ops access none val p = (p, enoent)
write_param ops access (some a) val p =
    if hidden a.mode
    then (p, enoent)
    else if access.writable a.mode
    then written (length val) (a.set ops val p) p
    else (p, eacces)

unfoldable pub read_file : ParamOps → Access → Text → Parameters → Contents
unfolding find_param
read_file ops access name p = read_param ops access (find_param name params) p

unfoldable pub write_file : ParamOps → Access → Text → Text → Parameters → Parameters × ℤ
unfolding find_param
write_file ops access name val p = write_param ops access (find_param name params) val p
