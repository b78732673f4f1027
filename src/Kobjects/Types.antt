-- ===== src/Kobjects/Types.antt =====
-- The variables of kobjects.c stay within their C types, whatever is written to the files.
use kernel_modules_playgroun.Prelude.{
  ℕ, ◌<◌, ◌≤◌, ◌≡◌, refl, ◌==◌, ltb, Bool-cases, inl, inr, Option, none, some, List, [], ◌∷◌,
  length, arith, ℤ,
}
use kernel_modules_playgroun.Prelude.Bytes.{Text, text, same_text, c_string}
use kernel_modules_playgroun.Prelude.Scanf.{scan_word, skip_spaces}
use kernel_modules_playgroun.Simacc.Driver.{is_digit}
use kernel_modules_playgroun.SysfsCore.{Access, mode}
use kernel_modules_playgroun.Kobjects.Driver.{
  Kobjects, magnitude, negative, signed_number, scan_int, foo_store, b_store,
}
use kernel_modules_playgroun.Kobjects.Files.{write_file}
use kernel_modules_playgroun.Kobjects.Directory.{
  Finds, foo, baz, bar, missing, find_attribute-Finds,
}

-- `foo` has room for nine characters and the 0, and `baz` and `bar` are of 32 bits.
pub record HasTypes (s : Kobjects) : Type 0 where
  pub foo : length s.foo < 10
  pub baz : s.baz < 4294967296
  pub bar : s.bar < 4294967296

abbrev FitsInt : Option ℕ → Type 0
FitsInt none = Unit {0}
FitsInt (some n) = n < 4294967296

magnitude-FitsInt : (cs : Text) → FitsInt (magnitude cs)
magnitude-FitsInt [] = tt
magnitude-FitsInt (c ∷ cs) = elim (Bool-cases (is_digit c)) [
  | inl digit ↦ rw digit (omega arith)
  | inr other ↦ rw other tt
]

negative-FitsInt : (n : Option ℕ) → FitsInt (negative n)
negative-FitsInt none = tt
negative-FitsInt (some n) = omega arith

signed_number-FitsInt : (cs : Text) → FitsInt (signed_number cs)
signed_number-FitsInt [] = tt
signed_number-FitsInt (c ∷ cs) = elim (Bool-cases (c == 45)) [
  | inl minus ↦ rw minus (negative-FitsInt (magnitude cs))
  | inr other ↦ rw other (magnitude-FitsInt (c ∷ cs))
]

scan_int-FitsInt : (buf : Text) → FitsInt (scan_int buf)
unfolding scan_int
scan_int-FitsInt buf = signed_number-FitsInt (skip_spaces buf)

-- What a write of `bytes` to `name` has left: variables within their types, or a word that was
-- written behind `foo`.
abbrev pub Written : Text → List ℕ → Option (Kobjects × ℤ) → Type 0
Written name bytes none =
    (name ≡ text "foo") × ((w : Text) × (scan_word (c_string bytes) ≡ some w) × (10 ≤ length w))
Written name bytes (some r) = HasTypes r.0

store_word-Written :
    (bytes : List ℕ) (s : Kobjects) (scanned : Option Text)
    → scan_word (c_string bytes) ≡ scanned
    → HasTypes s
    → Written (text "foo") bytes (foo_store (c_string bytes) (length bytes) s)
unfolding foo_store
store_word-Written bytes s none e h = rw (Written, e) h
store_word-Written bytes s (some w) e h = elim (Bool-cases (ltb (length w) 10)) [
  | inl short ↦ rw (Written, e) (rw short (record { foo = ground arith; baz = h.baz; bar = h.bar }))
  | inr long ↦ rw (Written, e) (rw long (refl, (w, e, ground arith)))
]

b_store-HasTypes :
    (name buf : Text) (count uninitialised : ℕ) (s : Kobjects) (scanned : Option ℕ)
    → scan_int buf ≡ scanned
    → FitsInt scanned
    → uninitialised < 4294967296
    → HasTypes s
    → HasTypes (b_store name buf count uninitialised s).0
unfolding b_store
b_store-HasTypes name buf count uninitialised s none e i u h =
    elim (Bool-cases (same_text name (text "baz"))) [
      | inl z ↦ rw (e, z) (record { foo = h.foo; baz = u; bar = h.bar })
      | inr r ↦ rw (e, r) (record { foo = h.foo; baz = h.baz; bar = u })
    ]
b_store-HasTypes name buf count uninitialised s (some n) e i u h =
    elim (Bool-cases (same_text name (text "baz"))) [
      | inl z ↦ rw (e, z) (record { foo = h.foo; baz = i; bar = h.bar })
      | inr r ↦ rw (e, r) (record { foo = h.foo; baz = h.baz; bar = i })
    ]

module _ (access : Access) (name : Text) (bytes : List ℕ) (uninitialised : ℕ) (s : Kobjects) where
  Finds-Written :
      Finds name
      → uninitialised < 4294967296
      → HasTypes s
      → Written name bytes (write_file access name bytes uninitialised s)
  unfolding write_file
  Finds-Written (missing e) u h = rw e h
  Finds-Written (foo n e) u h = elim (Bool-cases (access.writable (mode 6 6 6))) [
    | inl may ↦ rw (e, may, n) (store_word-Written bytes s _ refl h)
    | inr not ↦ rw (e, not) h
  ]
  Finds-Written (baz n e) u h = elim (Bool-cases (access.writable (mode 6 6 4))) [
    | inl may ↦
        rw (e, may)
          (b_store-HasTypes (text "baz") _ _ uninitialised s _ refl
            (scan_int-FitsInt (c_string bytes)) u h)
    | inr not ↦ rw (e, not) h
  ]
  Finds-Written (bar n e) u h = elim (Bool-cases (access.writable (mode 6 6 4))) [
    | inl may ↦
        rw (e, may)
          (b_store-HasTypes (text "bar") _ _ uninitialised s _ refl
            (scan_int-FitsInt (c_string bytes)) u h)
    | inr not ↦ rw (e, not) h
  ]

  -- Variables that are within their types stay so, whatever a process writes to whichever name, and
  -- whatever 32 bits `var` of `b_store` holds when it is declared: `baz` and `bar` are of 32 bits,
  -- and the word in `foo` has room for its 0. The one exception is a first word of ten characters
  -- or more that is written to foo, which runs behind it.
  pub write_file-Written :
      uninitialised < 4294967296
      → HasTypes s
      → Written name bytes (write_file access name bytes uninitialised s)
  write_file-Written u h = Finds-Written (find_attribute-Finds name) u h
