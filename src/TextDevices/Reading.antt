-- ===== src/TextDevices/Reading.antt =====
-- What a process reads from the devices of misc_char_dev.c and procfs.c.
use kernel_modules_playgroun.Prelude.{
  ℕ, zero, suc, ◌+◌, ◌-◌, ◌<◌, ◌≤◌, ◌≡◌, refl, sym, ap, ◌∙◌, Bool, true, false, Bool-cases, inl,
  inr, ◌==◌, if◌then◌else◌, Option, none, some, [], ◌∷◌, ◌++◌, length, take, drop, ℤ, pos, negsuc,
  arith,
}
use kernel_modules_playgroun.Prelude.Bytes.{Text}
use kernel_modules_playgroun.RwLock.{free, read_lock, read_unlock}
use kernel_modules_playgroun.TextDevices.Buffer.{my_eud_id, Fetched, ReadOk, left}
use kernel_modules_playgroun.TextDevices.Device.{Device}
use kernel_modules_playgroun.TextDevices.Procfs
use kernel_modules_playgroun.TextDevices.MiscCharDev

-- A process stops at the end of the file, where it gets 0, or at an error.
abbrev pub at_end : ℤ → Bool
at_end (pos n) = n == 0
at_end (negsuc n) = true

abbrev pub before_rest : Text → Option (Device × Text) → Option (Device × Text)
before_rest out none = none
before_rest out (some (d, rest)) = some (d, out ++ rest)

abbrev pub and_more :
    Option (Device × Fetched) → (ℕ → Device → Option (Device × Text)) → Option (Device × Text)
and_more none go = none
and_more (some (d, f)) go = if at_end f.ret then some (d, []) else before_rest f.out (go f.off d)

-- `simple_read_from_buffer` with the user's length and position.
abbrev pub Fetch : Type 0
Fetch = (len off : ℕ) → Text → ℕ → Fetched

-- A process that reads the device of misc_char_dev.c to the end, asking for `lens k` bytes at read
-- `k`.
unfoldable pub read_all : Fetch → (ℕ → ℕ) → ℕ → ℕ → ℕ → Device → Option (Device × Text)
read_all fetch lens zero k off d = none
read_all fetch lens (suc n) k off d =
    and_more (MiscCharDev.my_read (fetch (lens k) off) d) (read_all fetch lens n (suc k))

take-drop : (n : ℕ) (xs : Text) → take n xs ++ drop n xs ≡ xs
take-drop zero xs = refl
take-drop (suc n) [] = refl
take-drop (suc n) (x ∷ xs) = ap (λ ys. x ∷ ys) (take-drop n xs)

drop-nil : (n : ℕ) → drop {A = ℕ} n [] ≡ []
drop-nil zero = refl
drop-nil (suc n) = refl

drop-drop : (m n : ℕ) (xs : Text) → drop (m + n) xs ≡ drop n (drop m xs)
drop-drop zero n xs = ap (λ k. drop k xs) {x = zero + n} {y = n} (omega arith)
drop-drop (suc m) n [] =
    let more : suc m + n ≡ suc (m + n) = omega arith in ap (λ k. drop k []) more ∙ sym (drop-nil n)
drop-drop (suc m) n (x ∷ xs) =
    let more : suc m + n ≡ suc (m + n) = omega arith in
    ap (λ k. drop k (x ∷ xs)) more ∙ drop-drop m n xs

pub my_read-free :
    (g : Text → ℕ → Fetched) (d : Device)
    → d.lock ≡ free
    → MiscCharDev.my_read g d ≡ some (d, Procfs.my_read g)
unfolding MiscCharDev.my_read Procfs.my_read read_lock read_unlock
my_read-free g d e = rw e refl

module _ (fetch : Fetch) (lens : ℕ → ℕ)
    (ok : (len off : ℕ) (t : Text) → ReadOk t len off (fetch len off t (length t)))
    (positive : (k : ℕ) → 0 < lens k) where
  read_all-drop :
      (n k off : ℕ) (d : Device)
      → off ≤ 11
      → 11 < n + off
      → d.lock ≡ free
      → read_all fetch lens n k off d ≡ some (d, drop off my_eud_id)
  unfolding read_all Procfs.my_read
  read_all-drop zero k off d inside enough e = absurd (omega arith)
  read_all-drop (suc n) k off d inside enough e =
      let one = ok (lens k) off my_eud_id in
      let asked = positive k in
      let got = left (lens k) (11 - off) in
      let go = read_all fetch lens n (suc k) in
      ap (λ r. and_more r go) (my_read-free (fetch (lens k) off) d e)
      ∙ elim (Bool-cases (off == 11)) [
        | inl end ↦
            let last : off ≡ 11 = ground arith in
            let nothing : got ≡ 0 = ground (arith, asked) in
            rw (one.ret, nothing) (ap (λ o. some (d, drop o my_eud_id)) (sym last))
        | inr more ↦
            let some_left : (got == 0) ≡ false = ground (arith, asked) in
            let inside' : off + got ≤ 11 = ground arith in
            let enough' : 11 < n + (off + got) = ground arith in
            let rest = read_all-drop n (suc k) (off + got) d inside' enough' e in
            rw (one.ret, some_left, one.out, one.moved, rest)
              (ap (λ t. some (d, t))
                (ap (λ t. take got (drop off my_eud_id) ++ t) (drop-drop off got my_eud_id)
                  ∙ take-drop got (drop off my_eud_id)))
      ]

-- A process that reads the device of misc_char_dev.c to the end, in pieces of any sizes but 0, with
-- the lock free and `simple_read_from_buffer` copying as documented, comes to an end with at most 12
-- reads; it gets `HELLO WORLD`, whatever has been written, and the device is as it was. Each read is
-- that of procfs.c.
pub read_all-my_eud_id :
    (fetch : Fetch) (lens : ℕ → ℕ) (n : ℕ) (d : Device)
    → ((len off : ℕ) (t : Text) → ReadOk t len off (fetch len off t (length t)))
    → ((k : ℕ) → 0 < lens k)
    → 11 < n
    → d.lock ≡ free
    → (read_all fetch lens n 0 0 d ≡ some (d, my_eud_id))
      × ((len off : ℕ)
          → MiscCharDev.my_read (fetch len off) d ≡ some (d, Procfs.my_read (fetch len off)))
read_all-my_eud_id fetch lens n d ok positive enough e = (
  read_all-drop fetch lens ok positive n 0 0 d (omega arith) (omega (arith, enough)) e,
  λ len off. my_read-free (fetch len off) d e,
)
