-- ===== src/Simacc/Sums.antt =====
-- What a write to /proc/simacc adds up.
use kernel_modules_playgroun.Prelude.{
  ℕ, zero, suc, ◌+◌, ◌<◌, ◌≡◌, refl, ◌∙◌, ap, ap₂, true, false, Bool-cases, inl, inr, none, some,
  ltb, if◌then◌else◌, List, [], ◌∷◌, ◌++◌, arith, u64, length, take, drop, append_assoc, pos,
}
use kernel_modules_playgroun.Prelude.Bytes.{Text}
use kernel_modules_playgroun.Simacc.Driver.{
  Simacc, decimal, copied, scan, print_result, with_length, simacc_write, simacc_read,
  terminator_char, max_input_size,
}
use kernel_modules_playgroun.Simacc.Runs.{
  ended_runs, total, Bytes, scan-total, ended_runs-separator, total-append, Blank, total-Blank,
  Bytes-append, Bytes-drop, Blank-drop,
}
use kernel_modules_playgroun.Simacc.Decimal.{
  value-decimal, decimal-Digits, Digits-Bytes, ended_runs-Digits, length-decimal,
}

-- The sum of the numbers in a text, each of them counted whether or not anything follows it.
abbrev pub sum_of : Text → ℕ
sum_of cs = total (ended_runs [] (cs ++ terminator_char ∷ []))

take-length : (xs ys : List ℕ) → take (length xs) (xs ++ ys) ≡ xs
take-length [] ys = refl
take-length (x ∷ xs) ys = ap (λ r. x ∷ r) (take-length xs ys)

take-length_self : (xs : List ℕ) → take (length xs) xs ≡ xs
take-length_self [] = refl
take-length_self (x ∷ xs) = ap (λ r. x ∷ r) (take-length_self xs)

drop-length : (xs ys : List ℕ) → drop (suc (length xs)) (xs ++ ys) ≡ drop 1 ys
drop-length [] ys = refl
drop-length (x ∷ xs) ys = drop-length xs ys

drop-drop : (n : ℕ) (xs : List ℕ) → drop 1 (drop n xs) ≡ drop (suc n) xs
drop-drop zero xs = refl
drop-drop (suc n) [] = refl
drop-drop (suc n) (x ∷ xs) = drop-drop n xs

module _ (user : Text) (s : Simacc) (bytes : Bytes user) (kept : Bytes s.input_buf) where
  -- The part of the buffer that earlier writes have left behind this one.
  abbrev pub stale : List ℕ
  stale = drop (suc (length user)) s.input_buf

  -- The number that is printed.
  abbrev pub added : ℕ
  added = u64 (sum_of user + total (ended_runs [] stale))

  scan-added : scan (user ++ terminator_char ∷ stale) 0 0 ≡ added
  scan-added =
      scan-total _
        (Bytes-append user _ bytes (omega arith, Bytes-drop (suc (length user)) s.input_buf kept))
      ∙ ap u64 (
          ap total (ended_runs-separator user [] stale terminator_char refl)
          ∙ total-append (ended_runs [] (user ++ terminator_char ∷ [])) (ended_runs [] stale))

  print_result-decimal :
      (t : Simacc)
      → print_result (decimal added) t
        ≡ (if ltb added 1000000000000000 then some (record t { result = decimal added }) else none)
  print_result-decimal t = elim (Bool-cases (ltb added 1000000000000000)) [
    | inl below ↦
        let fits : ltb (length (decimal added)) 16 ≡ true =
          ground (arith, length-decimal added (omega arith), below) in
        rw (below, fits) refl
    | inr above ↦
        let over : ltb (length (decimal added)) 16 ≡ false =
          ground (arith, length-decimal added (omega arith), above) in
        rw (above, over) refl
  ]

  -- A write of less than 1024 bytes that can be copied takes the place of the front of the buffer,
  -- sets off what is behind it by `;`, and adds up both: the sum is that of the numbers written and
  -- of those that earlier writes have left, modulo 2^64. If it is below 10^15, its text is the
  -- result, and all of the write is taken; otherwise the text and its 0 are written behind
  -- `char result[16]`.
  pub simacc_write-total :
      length user < max_input_size
      → simacc_write copied user s ≡ (
          if ltb added 1000000000000000
          then some (
            record s { input_buf = user ++ terminator_char ∷ stale; result = decimal added },
            pos (length user),
          )
          else none)
  unfolding simacc_write
  simacc_write-total short =
      let over : ltb 1024 (length user) ≡ false = ground arith in
      let under : ltb (length user) 1024 ≡ true = ground arith in
      let stored : Simacc = record s { input_buf = user ++ terminator_char ∷ stale } in
      simp (over, under, take-length_self, take-length, drop-length, drop-drop)
        (ap (λ n. with_length (pos (length user)) (print_result (decimal n) stored)) scan-added
          ∙ ap (with_length (pos (length user))) (print_result-decimal stored)
          ∙ elim (Bool-cases (ltb added 1000000000000000)) [
            | inl below ↦ rw below refl
            | inr above ↦ rw above refl
          ])

-- Numbers as a user may write them, with spaces between.
abbrev pub listing : List ℕ → Text
listing [] = []
listing (n ∷ []) = decimal n
listing (n ∷ m ∷ ns) = decimal n ++ 32 ∷ listing (m ∷ ns)

abbrev pub sum : List ℕ → ℕ
sum [] = 0
sum (n ∷ ns) = n + sum ns

abbrev pub Words64 : List ℕ → Type 0
Words64 [] = Unit {0}
Words64 (n ∷ ns) = (n < 18446744073709551616) × Words64 ns

decimal-Bytes : (n : ℕ) → Bytes (decimal n)
decimal-Bytes n = Digits-Bytes (decimal n) (decimal-Digits n)

listing-Bytes : (ns : List ℕ) → Bytes (listing ns)
listing-Bytes [] = tt
listing-Bytes (n ∷ []) = decimal-Bytes n
listing-Bytes (n ∷ m ∷ ns) =
    Bytes-append (decimal n) _ (decimal-Bytes n) (omega arith, listing-Bytes (m ∷ ns))

sum_of-decimal : (n : ℕ) → n < 18446744073709551616 → sum_of (decimal n) ≡ n
sum_of-decimal n h =
    ap total (ended_runs-Digits (decimal n) [] (terminator_char ∷ []) (decimal-Digits n))
    ∙ omega (arith, value-decimal n h)

sum_of-listing : (ns : List ℕ) → Words64 ns → sum_of (listing ns) ≡ sum ns
sum_of-listing [] w = refl
sum_of-listing (n ∷ []) w = sum_of-decimal n w.0 ∙ omega arith
sum_of-listing (n ∷ m ∷ ns) w =
    let d = decimal n in
    let rest = listing (m ∷ ns) ++ terminator_char ∷ [] in
    let front : ended_runs [] (d ++ 32 ∷ []) ≡ d ∷ [] =
      ended_runs-Digits d [] (32 ∷ []) (decimal-Digits n) in
    ap (λ cs. total (ended_runs [] cs))
      (append_assoc d (32 ∷ listing (m ∷ ns)) (terminator_char ∷ []))
    ∙ ap total (ended_runs-separator d [] rest 32 refl)
    ∙ total-append (ended_runs [] (d ++ 32 ∷ [])) (ended_runs [] rest)
    ∙ rw front (omega (arith, value-decimal n w.0, sum_of-listing (m ∷ ns) w.1))

-- Writing 64-bit numbers in decimal with spaces between, less than 1024 bytes in all, to a buffer
-- with no digit left in it is taken whole if their sum modulo 2^64 is below 10^15, and reading then
-- shows this sum.
pub simacc_read-write :
    (ns : List ℕ) (s : Simacc) (off count : ℕ)
    → Words64 ns
    → Bytes s.input_buf
    → Blank s.input_buf
    → length (listing ns) < max_input_size
    → u64 (sum ns) < 1000000000000000
    → (s' : Simacc) × (simacc_write copied (listing ns) s ≡ some (s', pos (length (listing ns))))
      × ((simacc_read off count s').0 ≡ decimal (u64 (sum ns)) ++ 10 ∷ [])
unfolding simacc_read
simacc_read-write ns s off count w kept blank short fits =
    let user = listing ns in
    let bytes = listing-Bytes ns in
    let added_sum : added user s bytes kept ≡ u64 (sum ns) = ap u64 (
      ap₂ (λ a b. a + b) (sum_of-listing ns w)
        (total-Blank _ (Blank-drop (suc (length user)) s.input_buf blank))
      ∙ omega arith) in
    let below : ltb (added user s bytes kept) 1000000000000000 ≡ true =
      ground (arith, added_sum, fits) in
    (
      record s {
        input_buf = user ++ terminator_char ∷ stale user s bytes kept;
        result = decimal (added user s bytes kept);
      },
      simacc_write-total user s bytes kept short ∙ rw below refl,
      ap (λ n. decimal n ++ 10 ∷ []) added_sum,
    )
