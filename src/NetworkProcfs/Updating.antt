-- ===== src/NetworkProcfs/Updating.antt =====
-- The search of `add_to_list_network`, which updates the first entry of the source.
use kernel_modules_playgroun.Prelude.{
  ℕ, zero, suc, ◌<◌, ◌≡◌, ◌≢◌, refl, sym, ◌∙◌, Bool, true, false, Bool-cases, inl, inr, some, [],
  ◌∷◌, ◌==◌, if◌then◌else◌, length, arith,
}
use kernel_modules_playgroun.Prelude.Bytes.{Text, same_text}
use kernel_modules_playgroun.NetworkProcfs.Machine.{Ptr, null, node, Cells, write, Net, done}
use kernel_modules_playgroun.NetworkProcfs.Driver.{bump, hit, find}
use kernel_modules_playgroun.NetworkProcfs.Linked.{
  Chain, head, has, last, Linked, Linked-write, IsList, load_lem, modify_lem,
}

module _ (saddr : Text) (data_size : ℕ) where
  abbrev pub found : Chain → Bool
  found [] = false
  found ((p, e) ∷ xs) = if same_text e.addr saddr then true else found xs

  -- The first entry of the source, updated.
  abbrev pub update_first : Chain → Chain
  update_first [] = []
  update_first ((p, e) ∷ xs) =
      if same_text e.addr saddr then (p, bump data_size e) ∷ xs else (p, e) ∷ update_first xs

  abbrev pub updated : Cells → Chain → Cells
  updated h [] = h
  updated h ((p, e) ∷ xs) =
      if same_text e.addr saddr
      then write h p (some (node (bump data_size e) (head xs)))
      else updated h xs

  pub updated-outside : (h : Cells) (xs : Chain) (a : Ptr) → has a xs ≡ false → updated h xs a ≡ h a
  updated-outside h [] a out = refl
  updated-outside h ((p, e) ∷ xs) a out = ground (arith, updated-outside h xs a)

  pub updated-missing : (h : Cells) (xs : Chain) → found xs ≡ false → updated h xs ≡ h
  updated-missing h [] new = refl
  updated-missing h ((p, e) ∷ xs) new = ground (arith, updated-missing h xs)

  head-update_first : (xs : Chain) → head (update_first xs) ≡ head xs
  head-update_first [] = refl
  head-update_first ((p, e) ∷ xs) = ground arith

  has-update_first : (xs : Chain) (a : Ptr) → has a (update_first xs) ≡ has a xs
  has-update_first [] a = refl
  has-update_first ((p, e) ∷ xs) a = ground (arith, has-update_first xs a)

  last-update_first : (xs : Chain) → last (update_first xs) ≡ last xs
  last-update_first [] = refl
  last-update_first ((p, e) ∷ []) = ground arith
  last-update_first ((p, e) ∷ (q, f) ∷ xs) = ground (arith, last-update_first ((q, f) ∷ xs))

  Linked-updated : (h : Cells) (xs : Chain) → Linked h xs → Linked (updated h xs) (update_first xs)
  Linked-updated h [] l = tt
  Linked-updated h ((p, e) ∷ xs) l = elim (Bool-cases (same_text e.addr saddr)) [
    | inl eq ↦ rw eq (l.0, l.1, ground arith, Linked-write h p _ xs l.3 l.1)
    | inr ne ↦ rw ne (
      l.0,
      ground (arith, has-update_first xs p),
      ground (arith, updated-outside h xs p, head-update_first xs),
      Linked-updated h xs l.3,
    )
  ]

  find_lem :
      (fuel : ℕ) (s : Net) (xs : Chain)
      → Linked s.cells xs
      → length xs < fuel
      → find fuel (head xs) saddr data_size s
        ≡ done (found xs) (record s { cells = updated s.cells xs })
  unfolding find hit
  find_lem zero s xs l enough = absurd (omega arith)
  find_lem (suc fuel) s [] l enough = refl
  find_lem (suc fuel) s ((p, e) ∷ xs) l enough =
      let ne : (p == null) ≡ false = ground arith in
      rw (ne, load_lem p _ s l.0 l.2)
        (elim (Bool-cases (same_text e.addr saddr)) [
          | inl eq ↦ rw (eq, modify_lem p _ s l.0 l.2) refl
          | inr other ↦ rw other (find_lem fuel s xs l.3 (omega arith))
        ])

  update_first-ne-nil : (xs : Chain) → xs ≢ [] → update_first xs ≢ []
  update_first-ne-nil [] ne e = ne e
  update_first-ne-nil ((p, e) ∷ xs) ne c = ground arith

  pub updated-IsList :
      {h : Cells} {r t : Ptr} {xs : Chain}
      → IsList h r t xs
      → IsList (updated h xs) r t (update_first xs)
  updated-IsList {h} {xs} is = record {
    chain = Linked-updated h xs is.chain;
    nonempty = update_first-ne-nil xs is.nonempty;
    first = is.first ∙ sym (head-update_first xs);
    final = is.final ∙ sym (last-update_first xs);
  }

  pub find_at :
      (fuel : ℕ) (p : Ptr) (s : Net) (xs : Chain)
      → p ≡ head xs
      → Linked s.cells xs
      → length xs < fuel
      → find fuel p saddr data_size s ≡ done (found xs) (record s { cells = updated s.cells xs })
  find_at fuel p s xs e l enough = rw e (find_lem fuel s xs l enough)
