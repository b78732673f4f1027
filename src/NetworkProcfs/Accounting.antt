-- ===== src/NetworkProcfs/Accounting.antt =====
-- What the list of network_procfs.c says of the traffic that `hook_func` has seen.
use kernel_modules_playgroun.Prelude.{
  ℕ, ◌+◌, ◌<◌, ◌≤◌, ◌≡◌, ◌≢◌, refl, ◌∙◌, true, false, Bool-cases, inl, inr, Option, none, some, [],
  ◌∷◌, ◌++◌, ◌==◌, if◌then◌else◌, length, length-append, arith, u32, u64, sign_extend,
}
use kernel_modules_playgroun.Prelude.Bytes.{Text, same_text, same_text_refl, same_text_iff}
use kernel_modules_playgroun.NetworkProcfs.Machine.{Ptr, Entry}
use kernel_modules_playgroun.NetworkProcfs.Driver.{bump}
use kernel_modules_playgroun.NetworkProcfs.Linked.{Chain}
use kernel_modules_playgroun.NetworkProcfs.Updating.{found, update_first}
use kernel_modules_playgroun.NetworkProcfs.Adding.{first_entry, account}

-- The entry that the list holds for an address.
abbrev pub view : Text → Chain → Option Entry
view t [] = none
view t ((p, e) ∷ xs) = if same_text e.addr t then some e else view t xs

-- The entry that `n` packets of `bytes` bytes in all ask for: wrapped to the widths of the
-- counters, and none at all if there was no packet.
abbrev pub tally : Text → ℕ → ℕ → Option Entry
tally t n bytes =
    if n == 0 then none else some (record { addr = t; count = u32 n; data_used = u64 bytes })

view-append :
    (t : Text) (xs : Chain) (p : Ptr) (e : Entry)
    → view t (xs ++ (p, e) ∷ [])
      ≡ (elim (view t xs) [ none ↦ view t ((p, e) ∷ []) | some f ↦ some f ])
view-append t [] p e = refl
view-append t ((q, f) ∷ xs) p e = ground (arith, view-append t xs p e)

found-view : (t : Text) (d : ℕ) (xs : Chain) → found t d xs ≡ false → view t xs ≡ none
found-view t d [] h = refl
found-view t d ((p, e) ∷ xs) h = ground (arith, found-view t d xs)

found-view-some :
    (t : Text) (d : ℕ) (xs : Chain) → found t d xs ≡ true → (e : Entry) × (view t xs ≡ some e)
found-view-some t d [] h = cc
found-view-some t d ((p, e) ∷ xs) h = elim (Bool-cases (same_text e.addr t)) [
  | inl eq ↦ (e, rw eq)
  | inr ne ↦ rw ne (found-view-some t d xs (rw ne at h))
]

view-update_first_self :
    (t : Text) (d : ℕ) (xs : Chain) (e : Entry)
    → view t xs ≡ some e
    → view t (update_first t d xs) ≡ some (bump d e)
unfolding bump
view-update_first_self t d [] e h = cc
view-update_first_self t d ((p, f) ∷ xs) e h = ground (arith, view-update_first_self t d xs e)

view-update_first_ne :
    (t u : Text) (d : ℕ) (xs : Chain) → t ≢ u → view u (update_first t d xs) ≡ view u xs
unfolding bump
view-update_first_ne t u d [] ne = refl
view-update_first_ne t u d ((p, f) ∷ xs) ne =
    ground (arith, view-update_first_ne t u d xs ne, same_text_iff f.addr t, same_text_iff f.addr u)

pub account_self :
    (p : Ptr) (t : Text) (d n bytes : ℕ) (xs : Chain)
    → d < 4294967296
    → (n ≡ 0 → bytes ≡ 0)
    → view t xs ≡ tally t n bytes
    → view t (account p t d xs) ≡ tally t (n + 1) (bytes + sign_extend d)
account_self p t d n bytes xs small none_yet h = elim (Bool-cases (found t d xs)) [
  | inl old ↦
      let (e, at) = found-view-some t d xs old in
      rw old (view-update_first_self t d xs e at ∙ (unfold bump in ground arith))
  | inr new ↦
      rw (new, view-append, found-view t d xs new, same_text_refl)
        (ground (arith, found-view t d xs new))
]

-- A source that has an entry already, perhaps with its counters at 0.
pub account_again :
    (p : Ptr) (t : Text) (d n bytes : ℕ) (xs : Chain)
    → view t xs ≡ some (record { addr = t; count = u32 n; data_used = u64 bytes })
    → view t (account p t d xs)
      ≡ some (record { addr = t; count = u32 (n + 1); data_used = u64 (bytes + sign_extend d) })
account_again p t d n bytes xs h = elim (Bool-cases (found t d xs)) [
  | inl old ↦ rw old (view-update_first_self t d xs _ h ∙ (unfold bump in ground arith))
  | inr new ↦ absurd (cc (found-view t d xs new, h))
]

pub account-ne :
    (p : Ptr) (t u : Text) (d : ℕ) (xs : Chain) → t ≢ u → view u (account p t d xs) ≡ view u xs
account-ne p t u d xs ne = elim (Bool-cases (found t d xs)) [
  | inl old ↦ rw old (view-update_first_ne t u d xs ne)
  | inr new ↦ rw (new, view-append) (ground (arith, same_text_iff t u))
]

length-update_first : (t : Text) (d : ℕ) (xs : Chain) → length (update_first t d xs) ≡ length xs
length-update_first t d [] = refl
length-update_first t d ((p, e) ∷ xs) = ground (arith, length-update_first t d xs)

pub length-account :
    (p : Ptr) (t : Text) (d : ℕ) (xs : Chain) → length (account p t d xs) ≤ length xs + 1
length-account p t d xs =
    ground (arith, length-update_first t d xs, length-append xs ((p, first_entry t d) ∷ []))
