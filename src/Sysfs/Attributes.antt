-- ===== src/Sysfs/Attributes.antt =====
-- What a write to an attribute of sysfs_example.c stores, and what a read then shows.
use kernel_modules_playgroun.Prelude.{
  ℕ, ◌≤◌, ◌≡◌, ◌≢◌, refl, ap, ltb, if◌then◌else◌, List, [], ◌∷◌, ◌++◌, length, drop, arith, ℤ, pos,
  einval,
}
use kernel_modules_playgroun.Prelude.Bytes.{Text, text, same_text, c_string}
use kernel_modules_playgroun.Prelude.Scanf.{
  Spaces, NoSpaces, Ends, scan_word-word, scan_word-Spaces,
}
use kernel_modules_playgroun.RwLock.{free, read_lock, read_unlock, write_lock, write_unlock}
use kernel_modules_playgroun.Sysfs.Driver.{
  page_size, Sysfs, returns, overruns, print_line, id_store, strncpy, foo_show, foo_store,
}

-- Whether `id` takes a word.
abbrev pub id_answer : Text → ℕ → ℤ
id_answer w count = if same_text w (text "ritsz") then pos count else einval

-- A write to `id` stores its first word, wherever that stands, and is accepted exactly if it is
-- `ritsz`; a word that does not fit into `char kern_buff[128]` with its 0 runs over.
pub id_store-word :
    (blanks : Text) (c : ℕ) (w rest : Text) (count : ℕ) (s : Sysfs)
    → Spaces blanks
    → NoSpaces (c ∷ w)
    → Ends rest
    → id_store (blanks ++ ((c ∷ w) ++ rest)) count s ≡ (
        if ltb (length (c ∷ w)) 128
        then returns (record s { kern_buff = c ∷ w }) (id_answer (c ∷ w) count)
        else overruns)
unfolding id_store
id_store-word blanks c w rest count s b n e = rw (scan_word-word blanks c w rest b n e) refl

-- A write of nothing but spaces empties the word, and is refused.
id_store-Spaces :
    (c : ℕ) (blanks : Text) (count : ℕ) (s : Sysfs)
    → Spaces (c ∷ blanks)
    → id_store (c ∷ blanks) count s ≡ returns (record s { kern_buff = [] }) einval
unfolding id_store same_text
id_store-Spaces c blanks count s b = rw (scan_word-Spaces c blanks b) refl

-- The text has no 0 in it.
abbrev pub NoZero : List ℕ → Type 0
NoZero [] = Unit {0}
NoZero (c ∷ cs) = (c ≢ 0) × NoZero cs

c_string-strncpy :
    (buf page : List ℕ)
    → NoZero buf
    → length buf ≤ length page
    → c_string (strncpy (length buf) buf page) ≡ buf ++ c_string (drop (length buf) page)
unfolding strncpy
c_string-strncpy [] page nz fits = refl
c_string-strncpy (c ∷ cs) [] nz fits = absurd (omega arith)
c_string-strncpy (c ∷ cs) (y ∷ page) nz fits = ground (arith, c_string-strncpy cs page nz.1)

-- With the lock free and a text of at most a page with no 0 in it, a write to `foo` and then a read
-- give the lock back, and the read prints the text written and behind it, up to its 0, what the page
-- held there before: no 0 is stored.
pub foo_show-foo_store :
    (buf : Text) (s : Sysfs)
    → s.lock ≡ free
    → length s.my_page_buffer ≡ page_size
    → NoZero buf
    → length buf ≤ page_size
    → (s' : Sysfs) × (foo_store buf (length buf) s ≡ returns s' (pos (length buf)))
      × (s'.lock ≡ free)
      × (foo_show s' ≡ print_line s' (buf ++ c_string (drop (length buf) s.my_page_buffer)))
unfolding foo_store foo_show write_lock write_unlock read_lock read_unlock
foo_show-foo_store buf s unlocked size nz fits =
    let page = strncpy (length buf) buf s.my_page_buffer in
    (
      record s { my_page_buffer = page; lock = free },
      ground arith,
      refl,
      ap (print_line (record s { my_page_buffer = page; lock = free }))
          (c_string-strncpy buf s.my_page_buffer nz (omega arith)),
    )
