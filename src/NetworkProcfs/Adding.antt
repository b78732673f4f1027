-- ===== src/NetworkProcfs/Adding.antt =====
-- `add_to_list_network` of network_procfs.c updates the entry of the source, or adds one.
use kernel_modules_playgroun.Prelude.{
  ℕ, ◌<◌, ◌≡◌, ◌≢◌, refl, sym, ap, ◌∙◌, true, false, Bool-cases, ==_refl, inl, inr, some, none,
  List, [], ◌∷◌, ◌++◌, ◌==◌, if◌then◌else◌, ltb, length, arith, sign_extend,
}
use kernel_modules_playgroun.Prelude.Bytes.{Text}
use kernel_modules_playgroun.NetworkProcfs.Machine.{
  Ptr, null, Entry, node, Cells, write, Net, Ends, and_then, Ends-bind, load, modify, strcpy_addr,
  Block, kmem_cache_alloc, spin_lock, spin_unlock,
}
use kernel_modules_playgroun.NetworkProcfs.Driver.{append_node, add_to_list_network}
use kernel_modules_playgroun.NetworkProcfs.Linked.{
  Chain, has, last, Linked-last, Linked-append, last_entry, not-has_of_none, head-append,
  last-append, IsList, IsNet,
}
use kernel_modules_playgroun.NetworkProcfs.Updating.{
  found, update_first, updated-outside, updated-missing, updated-IsList, find_at,
}

append-ne-nil {ℓ} : {A : Type ℓ} (xs : List A) (y : A) → xs ++ y ∷ [] ≢ []
append-ne-nil [] y e = cc
append-ne-nil (x ∷ xs) y e = cc

-- The entry that a first packet makes.
abbrev pub first_entry : Text → ℕ → Entry
first_entry saddr data_size = record { addr = saddr; count = 1; data_used = sign_extend data_size }

-- The memory after `append_node`, given the entry of the old last node.
abbrev appended : Cells → (old fresh : Ptr) (e new : Entry) → Cells
appended h old fresh e new = write (write h old (some (node e fresh))) fresh (some (node new null))

module _ (b : Block) (saddr : Text) (data_size : ℕ) (short : length saddr < 16) where
  append_node_lem :
      (s : Net) (e : Entry)
      → s.tail ≢ null
      → s.cells s.tail ≡ some (node e null)
      → s.cache ≡ true
      → b.address ≢ null
      → b.address ≢ s.tail
      → Ends
          (λ _ s'.
            ((a : Ptr)
              → s'.cells a ≡ appended s.cells s.tail b.address e (first_entry saddr data_size) a)
            × (s'.root ≡ s.root)
            × (s'.tail ≡ b.address)
            × (s'.locked ≡ s.locked)
            × (s'.cache ≡ s.cache)
            × (s'.hooked ≡ s.hooked)
            × (s'.listed ≡ s.listed))
          (append_node b saddr data_size s)
  unfolding append_node kmem_cache_alloc modify load strcpy_addr
  append_node_lem s e tail_ne at cached fresh apart =
      let f : (b.address == null) ≡ false = ground arith in
      let t : (s.tail == null) ≡ false = ground arith in
      let tb : (s.tail == b.address) ≡ false = ground arith in
      let bt : (b.address == s.tail) ≡ false = ground arith in
      let fits : ltb (length saddr) 16 ≡ true = ground arith in
      simp (cached, f, t, tb, bt, at, fits, ==_refl)
        ((λ a. ground arith), refl, refl, refl, refl, refl, refl)

module _ (h : Cells) (t a : Ptr) (e new : Entry) where
  appended-fresh : appended h t a e new a ≡ some (node new null)
  appended-fresh = rw ==_refl

  appended-old : t ≢ a → appended h t a e new t ≡ some (node e a)
  appended-old ne = ground arith

  appended-other : (b : Ptr) → b ≢ t → b ≢ a → appended h t a e new b ≡ h b
  appended-other b nt na = ground arith

has-ne : (xs : Chain) (a b : Ptr) → has a xs ≡ false → has b xs ≡ true → b ≢ a
has-ne xs a b out inside e = cc (ap (λ x. has x xs) e)

module _ (a : Ptr) (new : Entry) (nonzero : a ≢ null) where
  appended-IsList :
      {h g : Cells} {r t : Ptr} {xs : Chain} (e : Entry)
      → IsList h r t xs
      → last_entry xs ≡ some e
      → h a ≡ none
      → ((b : Ptr) → g b ≡ appended h t a e new b)
      → IsList g r a (xs ++ (a, new) ∷ [])
  appended-IsList {h} {g} {t} {xs} e is entry unused same =
      let out = not-has_of_none h xs a is.chain unused in
      let (_, _, _, inside, _) = Linked-last h xs is.chain is.nonempty in
      record {
        chain =
            Linked-append h g xs a e new is.chain entry nonzero out
              (same a ∙ appended-fresh h t a e new)
              (rw (← is.final) (
                same t ∙ appended-old h t a e new (rw is.final (has-ne xs a (last xs) out inside))))
              (λ b i n.
                same b ∙ appended-other h t a e new b (rw is.final n) (has-ne xs a b out i));
        nonempty = append-ne-nil xs _;
        first = is.first ∙ sym (head-append xs ((a, new) ∷ []) is.nonempty);
        final = sym (last-append xs a new);
      }

-- The abstract effect of a packet: the entry of its source is updated, or a new one is added.
abbrev pub account : Ptr → Text → ℕ → Chain → Chain
account fresh saddr data_size xs =
    if found saddr data_size xs
    then update_first saddr data_size xs
    else xs ++ (fresh, first_entry saddr data_size) ∷ []

-- The list of the driver is `xs`, the registrations are those of `s`, and no object but the one at
-- `fresh` was allocated.
abbrev pub Keeps : Net → Ptr → Chain → Net → Type 0
Keeps s fresh xs s' =
    IsNet s' xs
    × (s'.hooked ≡ s.hooked)
    × (s'.listed ≡ s.listed)
    × ((a : Ptr) → a ≢ fresh → s.cells a ≡ none → s'.cells a ≡ none)

module _ (fuel : ℕ) (b : Block) (saddr : Text) (data_size : ℕ) (s : Net) (xs : Chain)
    (is : IsNet s xs) (enough : length xs < fuel) (short : length saddr < 16)
    (fresh : b.address ≢ null) (unused : s.cells b.address ≡ none) where
  append_node-account :
      Ends
        (λ _. Keeps s b.address (xs ++ (b.address, first_entry saddr data_size) ∷ []))
        (and_then (append_node b saddr data_size (record s { locked = true })) (λ _. spin_unlock))
  unfolding spin_unlock
  append_node-account =
      let (e, entry, ne, inside, at) = Linked-last s.cells xs is.list.chain is.list.nonempty in
      let out = not-has_of_none s.cells xs b.address is.list.chain unused in
      let apart = has-ne xs b.address (last xs) out inside in
      Ends-bind _ _ (append_node b saddr data_size (record s { locked = true })) _
        (append_node_lem b saddr data_size short (record s { locked = true }) e
          (rw is.list.final ne) (rw is.list.final at) is.cached fresh
          (rw is.list.final (λ c. apart (sym c))))
        λ _ s' (same, root, tail, locked, cache, hooked, listed). (
          record {
            list =
                rw (root, tail)
                  (appended-IsList b.address (first_entry saddr data_size) fresh e is.list entry
                    unused same);
            unlocked = refl;
            cached = cache ∙ is.cached;
          },
          hooked,
          listed,
          λ a na free.
              same a
              ∙ appended-other s.cells s.tail b.address e (first_entry saddr data_size) a
                  (λ c. cc (at, is.list.final, ap s.cells c)) na
              ∙ free,
        )

  -- On a well-formed list with fuel for it, a text of at most 15 bytes and an unused object of the
  -- slab allocator, `add_to_list_network` ends, gives the lock back, and has updated the first
  -- entry of the source, or added a node for it behind the last one; the list is well-formed again.
  pub add_to_list_network-account :
      Ends
        (λ _. Keeps s b.address (account b.address saddr data_size xs))
        (add_to_list_network fuel b saddr data_size s)
  unfolding add_to_list_network spin_lock spin_unlock
  add_to_list_network-account =
      let t = record s { locked = true } in
      simp
        (is.unlocked, find_at saddr data_size fuel s.root t xs is.list.first is.list.chain enough)
        (elim (Bool-cases (found saddr data_size xs)) [
          | inl old ↦ simp old (
            record {
              list = updated-IsList saddr data_size is.list;
              unlocked = refl;
              cached = is.cached;
            },
            refl,
            refl,
            λ a na free.
                updated-outside saddr data_size s.cells xs a
                  (not-has_of_none s.cells xs a is.list.chain free)
                ∙ free,
          )
          | inr new ↦ simp (new, updated-missing saddr data_size s.cells xs new) append_node-account
        ])
