-- ===== src/Kobjects/Attributes.antt =====
-- What a process reads from the attributes of kobjects.c after it has written them.
use kernel_modules_playgroun.Prelude.{
  ℕ, ◌<◌, ◌≡◌, refl, ltb, if◌then◌else◌, Bool-cases, inl, inr, Option, none, some, [], ◌∷◌, ◌++◌,
  length, ℤ, pos, signed32,
}
use kernel_modules_playgroun.Prelude.Bytes.{Text, text, same_text}
use kernel_modules_playgroun.Prelude.Scanf.{Spaces, NoSpaces, Ends, scan_word-word}
use kernel_modules_playgroun.Kobjects.Driver.{
  Kobjects, print_int, scan_int, foo_show, foo_store, b_show, b_store,
}
use kernel_modules_playgroun.Kobjects.Scanning.{scan_int-print_int}

-- The other of the two attributes.
abbrev pub other : Text → Text
other name = if same_text name (text "baz") then text "bar" else text "baz"

-- A 32-bit integer that is written to baz or to bar as `%d` prints it is read from it again, the
-- other one of the two keeps what is read from it, and so does foo.
pub b_show-b_store :
    (name : Text) (n count uninitialised : ℕ) (s : Kobjects)
    → n < 4294967296
    → (b_show name (b_store name (print_int (signed32 n) ++ 10 ∷ []) count uninitialised s).0
        ≡ print_int (signed32 n) ++ 10 ∷ [])
      × (b_show
            (other name)
            (b_store name (print_int (signed32 n) ++ 10 ∷ []) count uninitialised s).0
          ≡ b_show (other name) s)
      × (foo_show (b_store name (print_int (signed32 n) ++ 10 ∷ []) count uninitialised s).0
          ≡ foo_show s)
unfolding b_show b_store foo_show same_text
b_show-b_store name n count uninitialised s small =
    elim (Bool-cases (same_text name (text "baz"))) [
      | inl baz ↦ simp (baz, scan_int-print_int n small) (refl, refl, refl)
      | inr bar ↦ simp (bar, scan_int-print_int n small) (refl, refl, refl)
    ]

-- A text in which no number stands is accepted, and what then is read from the attribute is what
-- the stack held.
pub b_store-uninitialised :
    (name buf : Text) (count uninitialised : ℕ) (s : Kobjects)
    → scan_int buf ≡ none
    → ((b_store name buf count uninitialised s).1 ≡ pos count)
      × (b_show name (b_store name buf count uninitialised s).0
          ≡ print_int (signed32 uninitialised) ++ 10 ∷ [])
unfolding b_show b_store
b_store-uninitialised name buf count uninitialised s missing =
    elim (Bool-cases (same_text name (text "baz"))) [
      | inl baz ↦ simp (baz, missing) (refl, refl)
      | inr bar ↦ simp (bar, missing) (refl, refl)
    ]

abbrev pub reread : Option (Kobjects × ℤ) → Option (Text × ℤ)
reread none = none
reread (some r) = some (foo_show r.0, r.1)

-- What is read from foo after a text was written to it: its first word if the word is shorter than
-- ten characters; a longer word is written behind `foo`.
foo_store-word :
    (blanks : Text) (c : ℕ) (w rest : Text) (count : ℕ) (s : Kobjects)
    → Spaces blanks
    → NoSpaces (c ∷ w)
    → Ends rest
    → reread (foo_store (blanks ++ ((c ∷ w) ++ rest)) count s)
      ≡ (if ltb (length (c ∷ w)) 10 then some ((c ∷ w) ++ 10 ∷ [], pos count) else none)
unfolding foo_show foo_store
foo_store-word blanks c w rest count s b n e = elim (Bool-cases (ltb (length (c ∷ w)) 10)) [
  | inl short ↦ rw (reread, scan_word-word blanks c w rest b n e) (rw short refl)
  | inr long ↦ rw (reread, scan_word-word blanks c w rest b n e) (rw long refl)
]
