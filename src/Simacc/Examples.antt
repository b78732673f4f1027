-- ===== src/Simacc/Examples.antt =====
-- Concrete runs of file_proc.c.
use kernel_modules_playgroun.Prelude.{
  ltb, if◌then◌else◌, none, some, ◌≡◌, refl, true, [], ◌∷◌, ◌++◌, arith, u64, length, pos,
}
use kernel_modules_playgroun.Prelude.Bytes.{text}
use kernel_modules_playgroun.Simacc.Driver.{
  init_simacc, cleanup_simacc, Simacc, terminator_char, scan, digits, decimal, copied, simacc_write,
  simacc_read,
}
use kernel_modules_playgroun.Simacc.Runs.{Bytes}
use kernel_modules_playgroun.Simacc.Sums.{
  stale, added, listing, sum, simacc_write-total, simacc_read-write,
}

-- A buffer of which earlier writes have left `9;8;`.
abbrev used : Simacc
used = record { input_buf = text "9;8;"; behind = 0; result = text "17"; registered = true }

used-Bytes : Bytes used.input_buf
used-Bytes = (omega arith, (omega arith, (omega arith, (omega arith, tt))))

one-Bytes : Bytes (text "5")
one-Bytes = (omega arith, tt)

simacc_write-total_example : simacc_write copied (text "5") used ≡ (
    if ltb (added (text "5") used one-Bytes used-Bytes) 1000000000000000
    then some (
      record used {
        input_buf = text "5" ++ terminator_char ∷ stale (text "5") used one-Bytes used-Bytes;
        result = decimal (added (text "5") used one-Bytes used-Bytes);
      },
      pos 1,
    )
    else none)
simacc_write-total_example = simacc_write-total (text "5") used one-Bytes used-Bytes (omega arith)

abbrev fresh : Simacc
fresh = record {
  input_buf = 0 ∷ 0 ∷ 0 ∷ 59 ∷ [];
  behind = 0;
  result = text "0;";
  registered = true;
}

-- Sixteen digits run over.
overrun_test : simacc_write copied (text "1000000000000000") fresh ≡ none
unfolding simacc_write scan digits
overrun_test = refl

simacc_read-write_example :
    (s' : Simacc) × (simacc_write copied (listing (12 ∷ 30 ∷ [])) fresh
      ≡ some (s', pos (length (listing (12 ∷ 30 ∷ [])))))
    × ((simacc_read 0 4096 s').0 ≡ decimal (u64 (sum (12 ∷ 30 ∷ []))) ++ 10 ∷ [])
unfolding digits
simacc_read-write_example =
    simacc_read-write (12 ∷ 30 ∷ []) fresh 0 4096 (omega arith, (omega arith, tt))
      (omega arith, (omega arith, (omega arith, (omega arith, tt))))
      (refl, (refl, (refl, (refl, tt)))) (omega arith) (omega arith)

-- After loading, a read shows `0;`.
init_simacc_test :
    (simacc_read 0 4096 (cleanup_simacc (init_simacc true used).0)).0 ≡ text "0;" ++ 10 ∷ []
unfolding simacc_read cleanup_simacc init_simacc
init_simacc_test = refl
