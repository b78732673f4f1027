-- ===== src/Sysfs/Driver.antt =====
-- The show and store functions of sysfs_example.c.
use kernel_modules_playgroun.Prelude.{
  ℕ, zero, suc, ◌+◌, ◌==◌, ltb, leb, if◌then◌else◌, none, some, List, [], ◌∷◌, ◌++◌, length, ℤ, pos,
  einval,
}
use kernel_modules_playgroun.Prelude.Bytes.{Text, text, same_text, c_string}
use kernel_modules_playgroun.Prelude.Scanf.{scan_word}
use kernel_modules_playgroun.RwLock.{RwLock, read_lock, read_unlock, write_lock, write_unlock}
use kernel_modules_playgroun.Simacc.Driver.{decimal}

abbrev pub page_size : ℕ
page_size = 4096

-- `kern_buff` as a C string, the page at `my_page_buffer`, and `my_rwlock`.
pub record Sysfs : Type 0 where
  pub kern_buff : Text
  pub my_page_buffer : List ℕ
  pub lock : RwLock

-- How a callback ends: with the state and its return value, writing behind its buffer, or waiting
-- for the holder of the lock.
pub data Call : Type 0 where
  returns : Sysfs → ℤ → Call
  overruns waits : Call

-- `char my_eud_id[13] = "HELLO  WORLD\n"`: thirteen characters, and no room for the 0.
abbrev pub my_eud_id : Text
my_eud_id = text "HELLO  WORLD" ++ 10 ∷ []

-- How a show function ends: with the state and the text that it has written into the page of the
-- reader, whose length it returns, or as above.
pub data Show : Type 0 where
  shows : Sysfs → Text → Show
  show_overruns show_waits : Show

-- `sprintf(buf, "%s\n", t)`: the text, the line's end and the 0 fit into the page of the reader, or
-- run over it.
abbrev pub print_line : Sysfs → Text → Show
print_line s t = if leb (length t + 2) page_size then shows s (t ++ 10 ∷ []) else show_overruns

-- `behind` is what stands in memory behind `my_eud_id`, up to the next 0.
unfoldable pub id_show : Text → Sysfs → Show
id_show behind s = print_line s (my_eud_id ++ behind)

-- `id_store`
unfoldable pub id_store : Text → ℕ → Sysfs → Call
id_store buf count s =
    let kern_buff : Text = elim (scan_word buf) [ none ↦ s.kern_buff | some w ↦ w ] in
    if ltb (length kern_buff) 128
    then returns (record s { kern_buff = kern_buff })
        (if same_text kern_buff (text "ritsz") then pos count else einval)
    else overruns

unfoldable pub jiffies_show : ℕ → Text
jiffies_show jiffies = decimal jiffies ++ 10 ∷ []

-- `strncpy(to, from, n)`: a 0 in `from` is followed by nothing but 0; without one in the first `n`
-- bytes no 0 is stored.
unfoldable pub strncpy : ℕ → List ℕ → List ℕ → List ℕ
strncpy zero from to = to
strncpy (suc n) from [] = []
strncpy (suc n) [] (y ∷ to) = 0 ∷ strncpy n [] to
strncpy (suc n) (c ∷ from) (y ∷ to) =
    let stop = 0 ∷ strncpy n [] to in
    let more = c ∷ strncpy n from to in if c == 0 then stop else more

-- A page without a 0 in it is printed beyond its end, and so is more than fits.
unfoldable pub foo_show : Sysfs → Show
foo_show s = elim (read_lock s.lock) [
  | none ↦ show_waits
  | some l ↦ print_line (record s { lock = read_unlock l }) (c_string s.my_page_buffer)
]

unfoldable pub foo_store : List ℕ → ℕ → Sysfs → Call
foo_store buf count s = elim (write_lock s.lock) [
  | none ↦ waits
  | some l ↦
      if leb count page_size
      then returns
          (record s { my_page_buffer = strncpy count buf s.my_page_buffer; lock = write_unlock l })
          (pos count)
      else overruns
]
