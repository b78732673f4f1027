-- ===== src/Parameters/Exposed.antt =====
-- What processes can read and change of the variables of parameters.c, and what the command line
-- does.
use kernel_modules_playgroun.Prelude.{
  ℕ, List, ◌≡◌, ◌≢◌, inl, inr, refl, true, if◌then◌else◌, eq-if, Bool-cases, Option, none, some, [],
  ◌∷◌, ◌++◌, length, ℤ, pos,
}
use kernel_modules_playgroun.Prelude.Bytes.{Text, text, same_text, same_text_iff}
use kernel_modules_playgroun.SysfsCore.{mode, Access, IsAccess}
use kernel_modules_playgroun.Parameters.Driver.{Parameters, defaults}
use kernel_modules_playgroun.Parameters.Given.{given}
use kernel_modules_playgroun.Parameters.Files.{
  ParamOps, myshort_param, myint_param, mylong_param, mystring_param, my_int_array_param, params,
  assign, find_param, parse_one, contents, written, read_file, write_file,
}

-- A name is that of one of the five parameters, or of none.
data Finds (name : Text) : Type 0 where
  short : name ≡ text "myshort" → find_param name params ≡ some myshort_param → Finds name
  int : name ≡ text "myint" → find_param name params ≡ some myint_param → Finds name
  long : find_param name params ≡ some mylong_param → Finds name
  string : find_param name params ≡ some mystring_param → Finds name
  array : find_param name params ≡ some my_int_array_param → Finds name
  missing : find_param name params ≡ none → Finds name

find_param-Finds : (name : Text) → Finds name
unfolding find_param
find_param-Finds name = elim (Bool-cases (same_text name (text "myshort"))) [
  | inl s ↦ short ((same_text_iff _ _).0 s) (simp s)
  | inr s ↦ elim (Bool-cases (same_text name (text "myint"))) [
    | inl i ↦ int ((same_text_iff _ _).0 i) (simp (s, i))
    | inr i ↦ elim (Bool-cases (same_text name (text "mylong"))) [
      | inl l ↦ long (simp (s, i, l))
      | inr l ↦ elim (Bool-cases (same_text name (text "mystring"))) [
        | inl t ↦ string (simp (s, i, l, t))
        | inr t ↦ elim (Bool-cases (same_text name (text "myintArray"))) [
          | inl a ↦ array (simp (s, i, l, t, a))
          | inr a ↦ missing (simp (s, i, l, t, a))
        ]
      ]
    ]
  ]
]

-- The variables that only the command line sets.
pub record SameFixed (p p' : Parameters) : Type 0 where
  pub mylong : p'.mylong ≡ p.mylong
  pub mystring : p'.mystring ≡ p.mystring
  pub my_int_array : p'.my_int_array ≡ p.my_int_array
  pub arr_argc : p'.arr_argc ≡ p.arr_argc

unchanged : (p : Parameters) → SameFixed p p
unchanged p = record { mylong = refl; mystring = refl; my_int_array = refl; arr_argc = refl }

written-SameFixed :
    (p : Parameters) (f : ℤ → Parameters) (z : Option ℤ) (n : ℕ)
    → ((x : ℤ) → SameFixed p (f x))
    → SameFixed p (written n (assign f z) p).0
written-SameFixed p f none n fixed = unchanged p
written-SameFixed p f (some x) n fixed = fixed x

module _ (ops : ParamOps) (access : Access) (name val : Text) (p : Parameters) where
  Finds-SameFixed : Finds name → IsAccess access → SameFixed p (write_file ops access name val p).0
  unfolding write_file
  Finds-SameFixed (short n e) lawful = elim (Bool-cases (access.writable (mode 6 6 0))) [
    | inl may ↦
        rw (e, may)
          (written-SameFixed p _ (ops.number 16 val) _
            (λ z. record { mylong = refl; mystring = refl; my_int_array = refl; arr_argc = refl }))
    | inr not ↦ rw (e, not) (unchanged p)
  ]
  Finds-SameFixed (int n e) lawful = elim (Bool-cases (access.writable (mode 6 4 4))) [
    | inl may ↦
        rw (e, may)
          (written-SameFixed p _ (ops.number 32 val) _
            (λ z. record { mylong = refl; mystring = refl; my_int_array = refl; arr_argc = refl }))
    | inr not ↦ rw (e, not) (unchanged p)
  ]
  Finds-SameFixed (long e) lawful = rw (e, lawful.write_none 4 0 0 refl) (unchanged p)
  Finds-SameFixed (string e) lawful = rw e (unchanged p)
  Finds-SameFixed (array e) lawful = rw e (unchanged p)
  Finds-SameFixed (missing e) lawful = rw e (unchanged p)

  -- Where the kernel grants access to files as documented, a write to any name, by any process,
  -- leaves mylong, mystring, myintArray and the number of its arguments as the command line set
  -- them.
  pub write_file-SameFixed : IsAccess access → SameFixed p (write_file ops access name val p).0
  write_file-SameFixed lawful = Finds-SameFixed (find_param-Finds name) lawful

module _ (ops : ParamOps) (reader : Access) (name : Text) (p q : Parameters) where
  same_but-myint :
      Finds name
      → name ≢ text "myint"
      → SameFixed p q
      → q.myshort ≡ p.myshort
      → read_file ops reader name q ≡ read_file ops reader name p
  unfolding read_file
  same_but-myint (short _ e) ne fixed s = rw (e, s) refl
  same_but-myint (int n e) ne fixed s = absurd (ne n)
  same_but-myint (long e) ne fixed s = rw (e, fixed.mylong) refl
  same_but-myint (string e) ne fixed s = rw e refl
  same_but-myint (array e) ne fixed s = rw e refl
  same_but-myint (missing e) ne fixed s = rw e refl

-- A process that may write myint writes a text that the kernel takes for a 32-bit number: all of it
-- is taken, and where the kernel grants access to files as documented, any process then reads this
-- number with the line's end from myint, and from any other name what it read there before.
pub read_file-myint :
    (ops : ParamOps) (access reader : Access) (val : Text) (z : ℤ) (p : Parameters)
    → IsAccess reader
    → access.writable (mode 6 4 4) ≡ true
    → ops.number 32 val ≡ some z
    → (p' : Parameters) × (write_file ops access (text "myint") val p ≡ (p', pos (length val)))
      × ((other : Text)
          → read_file ops reader other p' ≡ (
              if same_text other (text "myint")
              then contents (ops.print z ++ 10 ∷ [])
              else read_file ops reader other p))
unfolding write_file read_file same_text find_param
read_file-myint ops access reader val z p lawful may number = (
  record p { myint = z },
  rw (may, number) refl,
  λ other.
      eq-if (same_text other (text "myint"))
        (λ same. rw ((same_text_iff other (text "myint")).0 same, lawful.read_all 6 4 4 refl) refl)
        (λ ne.
          same_but-myint ops reader other p (record p { myint = z }) (find_param-Finds other)
            (λ e. cc (ne, (same_text_iff other (text "myint")).1 e))
            (record { mylong = refl; mystring = refl; my_int_array = refl; arr_argc = refl }) refl),
)

-- Where the kernel takes a text for at most as many numbers as the array has, `myintArray=` with it
-- puts them in front of the elements that were not given and counts them, and every other variable
-- keeps its default.
pub parse_one-given :
    (ops : ParamOps) (val : Text) (vs : List ℤ)
    → ops.numbers 2 val ≡ some vs
    → parse_one ops (text "myintArray") val defaults ≡ some (given vs)
unfolding parse_one same_text find_param
parse_one-given ops val vs e = rw e refl
