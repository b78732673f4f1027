-- ===== src/NetworkProcfs/Linked.antt =====
-- What the chain of nodes stands for: addresses with their entries, in order.
use kernel_modules_playgroun.Prelude.{
  ◌≡◌, ◌≢◌, Bool, true, false, ◌||◌, Option, some, none, refl, ◌++◌, List, [], ◌∷◌, ◌==◌, arith,
}
use kernel_modules_playgroun.NetworkProcfs.Machine.{
  Ptr, null, Entry, NetworkList, node, Cells, write, Net, load, modify, done,
}

abbrev pub Chain : Type 0
Chain = List (Ptr × Entry)

abbrev pub head : Chain → Ptr
head [] = null
head ((p, _) ∷ xs) = p

abbrev pub has : Ptr → Chain → Bool
has a [] = false
has a ((p, _) ∷ xs) = (a == p) || has a xs

-- The nodes of `xs` are allocated, distinct, and each points to the one behind it.
abbrev pub Linked : Cells → Chain → Type 0
Linked h [] = Unit {0}
Linked h ((p, e) ∷ xs) =
    (p ≢ null) × (has p xs ≡ false) × (h p ≡ some (node e (head xs))) × Linked h xs

-- A change outside of the chain does not matter.
Linked-frame :
    (h g : Cells) (xs : Chain)
    → Linked h xs
    → ((a : Ptr) → has a xs ≡ true → g a ≡ h a)
    → Linked g xs
Linked-frame h g [] l same = tt
Linked-frame h g ((p, e) ∷ xs) l same =
    (l.0, l.1, ground (arith, same p), Linked-frame h g xs l.3 (λ a i. same a (ground arith)))

pub Linked-write :
    (h : Cells) (a : Ptr) (c : Option NetworkList) (xs : Chain)
    → Linked h xs
    → has a xs ≡ false
    → Linked (write h a c) xs
Linked-write h a c xs l out = Linked-frame h (write h a c) xs l (λ b i. ground arith)

abbrev pub last : Chain → Ptr
last [] = null
last ((p, _) ∷ []) = p
last (_ ∷ x ∷ xs) = last (x ∷ xs)

-- From `root` to `tail` the list is `xs`.
pub record IsList (h : Cells) (root tail : Ptr) (xs : Chain) : Type 0 where
  pub chain : Linked h xs
  pub nonempty : xs ≢ []
  pub first : root ≡ head xs
  pub final : tail ≡ last xs

-- Between two calls of the driver its list is `xs`, the sentinel that `init_packet` makes and then
-- a node for each source, and no one holds the lock.
pub record IsNet (s : Net) (xs : Chain) : Type 0 where
  pub list : IsList s.cells s.root s.tail xs
  pub unlocked : s.locked ≡ false
  pub cached : s.cache ≡ true

-- Reading and writing a node that is there.
module _ (p : Ptr) (n : NetworkList) (s : Net) (ne : p ≢ null) (e : s.cells p ≡ some n) where
  pub load_lem : load p s ≡ done n s
  unfolding load
  load_lem = ground arith

  pub modify_lem :
      (f : NetworkList → NetworkList)
      → modify p f s ≡ done tt (record s { cells = write s.cells p (some (f n)) })
  unfolding modify
  modify_lem f = rw load_lem

abbrev pub last_entry : Chain → Option Entry
last_entry [] = none
last_entry ((p, e) ∷ []) = some e
last_entry (_ ∷ x ∷ xs) = last_entry (x ∷ xs)

-- The last node of a chain that is not empty.
pub Linked-last :
    (h : Cells) (xs : Chain)
    → Linked h xs
    → xs ≢ []
    → (e : Entry) × (last_entry xs ≡ some e)
      × (last xs ≢ null)
      × (has (last xs) xs ≡ true)
      × (h (last xs) ≡ some (node e null))
Linked-last h [] l ne = absurd (ne refl)
Linked-last h ((p, e) ∷ []) l ne = (e, refl, l.0, ground arith, l.2)
Linked-last h ((p, e) ∷ (q, f) ∷ xs) l ne =
    let (g, entry, nonzero, inside, at) = Linked-last h ((q, f) ∷ xs) l.3 (λ c. cc) in
    (g, entry, nonzero, ground arith, at)

pub not-has_of_none :
    (h : Cells) (xs : Chain) (a : Ptr) → Linked h xs → h a ≡ none → has a xs ≡ false
not-has_of_none h [] a l free = refl
not-has_of_none h ((p, e) ∷ xs) a l free = ground (arith, not-has_of_none h xs a l.3 free)

has-append : (a : Ptr) (xs ys : Chain) → has a (xs ++ ys) ≡ (has a xs || has a ys)
has-append a [] ys = refl
has-append a ((p, e) ∷ xs) ys = ground (arith, has-append a xs ys)

pub head-append : (xs ys : Chain) → xs ≢ [] → head (xs ++ ys) ≡ head xs
head-append [] ys ne = absurd (ne refl)
head-append (x ∷ xs) ys ne = refl

pub last-append : (xs : Chain) (p : Ptr) (e : Entry) → last (xs ++ (p, e) ∷ []) ≡ p
last-append [] p e = refl
last-append (x ∷ []) p e = refl
last-append (x ∷ y ∷ xs) p e = last-append (y ∷ xs) p e

-- The old last node points to the new one, which ends the chain.
pub Linked-append :
    (h g : Cells) (xs : Chain) (a : Ptr) (e new : Entry)
    → Linked h xs
    → last_entry xs ≡ some e
    → a ≢ null
    → has a xs ≡ false
    → g a ≡ some (node new null)
    → g (last xs) ≡ some (node e a)
    → ((b : Ptr) → has b xs ≡ true → b ≢ last xs → g b ≡ h b)
    → Linked g (xs ++ (a, new) ∷ [])
Linked-append h g [] a e new l entry nonzero out at old same = (nonzero, refl, at, tt)
Linked-append h g ((p, f) ∷ []) a e new l entry nonzero out at old same =
    (l.0, ground arith, ground arith, (nonzero, refl, at, tt))
Linked-append h g ((p, f) ∷ (q, k) ∷ xs) a e new l entry nonzero out at old same = (
  l.0,
  rw (has-append p ((q, k) ∷ xs) ((a, new) ∷ [])) (ground arith),
  ground (arith, same p, Linked-last h ((q, k) ∷ xs) l.3 (λ c. cc)),
  Linked-append h g ((q, k) ∷ xs) a e new l.3 entry nonzero (ground arith) at old
      (λ b i. same b (ground arith)),
)
