-- ===== src/Prelude/Scanf.antt =====
-- `sscanf` of the C library, as far as the modules use it, and C strings in buffers.
use Prim.Native.Nat.{ℕ}
use mathlib.Core.Path.{◌≡◌, refl, ap, ◌∙◌}
use mathlib.Core.Logic.{◌≢◌}
use mathlib.Core.Bool.{Bool, true, false, ◌&&◌, ◌||◌}
use mathlib.Core.Option.{Option, none, some}
use mathlib.Core.List.{[], ◌∷◌, ◌++◌}
use native.Mathlib.Omega.{arith}
use kernel_modules_playgroun.Prelude.Tests.{leb, ◌==◌, if◌then◌else◌}
use kernel_modules_playgroun.Prelude.Bytes.{Text}

-- `isspace` of the kernel, which counts the no-break space of Latin-1.
abbrev pub is_space : ℕ → Bool
is_space c = (c == 32) || ((leb 9 c && leb c 13) || (c == 160))

abbrev pub skip_spaces : Text → Text
skip_spaces [] = []
skip_spaces (c ∷ cs) = let rest = skip_spaces cs in if is_space c then rest else c ∷ cs

-- The characters before the first space.
abbrev pub word : Text → Text
word [] = []
word (c ∷ cs) = let rest = word cs in if is_space c then [] else c ∷ rest

-- `%s`, as the kernel has it: the first word, which is empty if there are only spaces; nothing is
-- stored if the text is empty.
unfoldable pub scan_word : Text → Option Text
scan_word [] = none
scan_word (c ∷ cs) = some (word (skip_spaces (c ∷ cs)))

scan_word-nonempty : (buf : Text) → buf ≢ [] → scan_word buf ≡ some (word (skip_spaces buf))
unfolding scan_word
scan_word-nonempty [] ne = absurd (ne refl)
scan_word-nonempty (c ∷ cs) ne = refl

abbrev pub Spaces : Text → Type 0
Spaces [] = Unit {0}
Spaces (c ∷ cs) = (is_space c ≡ true) × Spaces cs

abbrev pub NoSpaces : Text → Type 0
NoSpaces [] = Unit {0}
NoSpaces (c ∷ cs) = (is_space c ≡ false) × NoSpaces cs

-- The text ends here, or goes on with a space.
abbrev pub Ends : Text → Type 0
Ends [] = Unit {0}
Ends (c ∷ cs) = is_space c ≡ true

skip_spaces-Spaces :
    (blanks rest : Text) → Spaces blanks → skip_spaces (blanks ++ rest) ≡ skip_spaces rest
skip_spaces-Spaces [] rest b = refl
skip_spaces-Spaces (c ∷ cs) rest b = ground (arith, skip_spaces-Spaces cs rest b.1)

word-NoSpaces : (w rest : Text) → NoSpaces w → Ends rest → word (w ++ rest) ≡ w
word-NoSpaces [] [] n e = refl
word-NoSpaces [] (c ∷ cs) n e = ground arith
word-NoSpaces (c ∷ cs) rest n e = ground (arith, word-NoSpaces cs rest n.1 e)

-- The first word of a text, wherever it stands.
pub scan_word-word :
    (blanks : Text) (c : ℕ) (w rest : Text)
    → Spaces blanks
    → NoSpaces (c ∷ w)
    → Ends rest
    → scan_word (blanks ++ ((c ∷ w) ++ rest)) ≡ some (c ∷ w)
scan_word-word blanks c w rest b n e =
    scan_word-nonempty (blanks ++ ((c ∷ w) ++ rest)) (not_empty blanks)
    ∙ simp (skip_spaces-Spaces blanks ((c ∷ w) ++ rest) b, n.0, word-NoSpaces w rest n.1 e)
  where
    not_empty : (bs : Text) → bs ++ ((c ∷ w) ++ rest) ≢ []
    not_empty [] = λ e. absurd (ground arith)
    not_empty (d ∷ bs) = λ e. absurd (ground arith)

skip_spaces-all : (blanks : Text) → Spaces blanks → skip_spaces blanks ≡ []
skip_spaces-all [] b = refl
skip_spaces-all (c ∷ cs) b = rw b.0 (skip_spaces-all cs b.1)

pub scan_word-Spaces :
    (c : ℕ) (blanks : Text) → Spaces (c ∷ blanks) → scan_word (c ∷ blanks) ≡ some []
unfolding scan_word
scan_word-Spaces c blanks b = ap (λ t. some (word t)) (skip_spaces-all (c ∷ blanks) b)
