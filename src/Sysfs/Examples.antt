-- ===== src/Sysfs/Examples.antt =====
-- Concrete uses of the attributes of sysfs_example.c.
use kernel_modules_playgroun.Simacc.Driver.{digits}
use kernel_modules_playgroun.Prelude.{
  ℕ, zero, suc, ◌+◌, leb, ◌≡◌, refl, ap, List, [], ◌∷◌, ◌++◌, length, drop, arith, pos, ltb, ◌||◌,
  if◌then◌else◌, inr,
}
use kernel_modules_playgroun.Prelude.Bytes.{text, same_text, c_string}
use kernel_modules_playgroun.SysfsCore.{enoent, eacces, owner, stranger, stranger-IsAccess}
use kernel_modules_playgroun.RwLock.{free}
use kernel_modules_playgroun.Sysfs.Driver.{
  id_show, jiffies_show, Sysfs, returns, overruns, shows, print_line, id_store, foo_show, foo_store,
}
use kernel_modules_playgroun.Sysfs.Files.{Kernel, contents, overrun, read_file, write_file}
use kernel_modules_playgroun.Sysfs.Directory.{write_file-refused, read_file-foo_store}
use kernel_modules_playgroun.Sysfs.Attributes.{id_answer, id_store-word, foo_show-foo_store}

abbrev zeros : ℕ → List ℕ
zeros zero = []
zeros (suc n) = 0 ∷ zeros n

length-zeros : (n : ℕ) → length (zeros n) ≡ n
length-zeros zero = refl
length-zeros (suc n) = omega (arith, length-zeros n)

abbrev accepted : Sysfs
accepted = record { kern_buff = text "ritsz"; my_page_buffer = zeros 4096; lock = free }

id_store-word_test : id_store ([] ++ (text "ritzs" ++ 10 ∷ [])) 6 accepted ≡ (
    if ltb 5 128
    then returns (record accepted { kern_buff = text "ritzs" }) (id_answer (text "ritzs") 6)
    else overruns)
id_store-word_test =
    id_store-word [] 114 (text "itzs") (10 ∷ []) 6 accepted tt
      (refl, (refl, (refl, (refl, (refl, tt))))) refl

foo_show-foo_store_test :
    (s' : Sysfs) × (foo_store (text "ab") 2 accepted ≡ returns s' (pos 2))
    × (s'.lock ≡ free)
    × (foo_show s' ≡ print_line s' (text "ab" ++ c_string (drop 2 accepted.my_page_buffer)))
foo_show-foo_store_test =
    foo_show-foo_store (text "ab") accepted refl (length-zeros 4096)
      ((λ e. absurd (omega arith)), ((λ e. absurd (omega arith)), tt)) (omega arith)

-- With `x` behind `my_eud_id` in memory.
id_show_test :
    id_show (text "x") accepted ≡ shows accepted (text "HELLO  WORLD" ++ 10 ∷ text "x" ++ 10 ∷ [])
unfolding id_show
id_show_test = refl

jiffies_show_test : jiffies_show 4294937296 ≡ text "4294937296" ++ 10 ∷ []
unfolding jiffies_show digits
jiffies_show_test = refl

write_file-refused_example :
    write_file stranger (text "foo") (text "ab") accepted
    ≡ returns accepted (
        if same_text (text "foo") (text "jiffies") || same_text (text "foo") (text "foo")
        then eacces
        else enoent)
write_file-refused_example =
    write_file-refused stranger (text "foo") (text "ab") accepted stranger-IsAccess
      (λ e. absurd (omega (arith, ap length e))) (inr refl)

abbrev kernel : Kernel
kernel = record { behind = []; jiffies = 250 }

-- The owner writes to foo, and a stranger reads it.
read_file-foo_store_example :
    (s' : Sysfs) × (write_file owner (text "foo") (text "ab") accepted ≡ returns s' (pos 2))
    × (s'.lock ≡ free)
    × (read_file stranger (text "foo") kernel s' ≡ (
        let t = text "ab" ++ c_string (drop 2 accepted.my_page_buffer) in
        (s', if leb (length t + 2) 4096 then contents (t ++ 10 ∷ []) else overrun)))
read_file-foo_store_example =
    read_file-foo_store owner stranger kernel (text "ab") accepted stranger-IsAccess refl refl
      (length-zeros 4096) ((λ e. absurd (omega arith)), ((λ e. absurd (omega arith)), tt))
      (omega arith)
