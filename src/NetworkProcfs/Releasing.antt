-- ===== src/NetworkProcfs/Releasing.antt =====
-- `free` and `cleanup_packet` of network_procfs.c.
use kernel_modules_playgroun.Prelude.{
  ℕ, zero, suc, ◌<◌, ◌≡◌, ◌≢◌, refl, ◌∙◌, true, false, none, some, [], ◌∷◌, ◌==◌, if◌then◌else◌,
  length, arith,
}
use kernel_modules_playgroun.NetworkProcfs.Machine.{
  Ptr, null, node, Net, fault, Ends, Ends-bind, Ends-mono, Block, SkBuff, Kernel, load,
  kmem_cache_free, spin_lock,
}
use kernel_modules_playgroun.NetworkProcfs.Driver.{
  free, find, add_to_list_network, hook_func, release_list, cleanup_packet,
}
use kernel_modules_playgroun.NetworkProcfs.Linked.{Chain, head, has, Linked, IsNet, load_lem}

-- The objects of `xs` are given back, and nothing else is touched.
abbrev pub Freed : Net → Chain → Net → Type 0
Freed s xs s' =
    ((a : Ptr) → s'.cells a ≡ (if has a xs then none else s.cells a))
    × (s'.root ≡ s.root)
    × (s'.locked ≡ s.locked)
    × (s'.cache ≡ s.cache)
    × (s'.hooked ≡ s.hooked)
    × (s'.listed ≡ s.listed)

free-Freed :
    (fuel : ℕ) (p : Ptr) (s : Net) (xs : Chain)
    → p ≡ head xs
    → Linked s.cells xs
    → length xs < fuel
    → Ends (λ _. Freed s xs) (free fuel p s)
unfolding free
free-Freed zero p s xs e l enough = absurd (omega arith)
free-Freed (suc fuel) p s [] e l enough = simp e ((λ a. refl), refl, refl, refl, refl, refl)
free-Freed (suc fuel) p s ((q, x) ∷ xs) e l enough =
    let ne : (q == null) ≡ false = ground arith in
    simp (e, ne, load_lem q _ s l.0 l.2)
      (Ends-bind _ _ (free fuel (head xs) s) _
        (free-Freed fuel (head xs) s xs refl l.3 (omega arith))
        λ _ s' f.
          let at : s'.cells q ≡ some (node x (head xs)) = f.0 q ∙ rw l.1 l.2 in
          unfold kmem_cache_free in
          simp (load_lem q _ s' l.0 at) ((λ a. ground (arith, f.0 a)), f.1, f.2, f.3, f.4, f.5))

module _ (fuel : ℕ) (s : Net) (xs : Chain) (is : IsNet s xs) (enough : length xs < fuel) where
  release_list-Freed :
      Ends (λ _. Freed (record s { cache = false; listed = false }) xs) (release_list fuel s)
  unfolding release_list
  release_list-Freed =
      let t = record s { listed = false } in
      Ends-bind _ _ (free fuel s.root t) _
        (free-Freed fuel s.root t xs is.list.first is.list.chain enough)
        λ _ s' f. (f.0, f.1, f.2, refl, f.4, f.5)

  -- With a well-formed list and fuel for it, unloading ends without a fault, gives back exactly the
  -- nodes of the list, and takes back the hook, the /proc entry and the cache.
  pub cleanup_packet-frees :
      Ends
        (λ _ s'.
          ((a : Ptr) → s'.cells a ≡ (if has a xs then none else s.cells a))
          × (s'.cache ≡ false)
          × (s'.hooked ≡ false)
          × (s'.listed ≡ false))
        (cleanup_packet fuel s)
  unfolding cleanup_packet
  cleanup_packet-frees =
      Ends-bind _ _ (release_list fuel s) _ release_list-Freed λ _ s' f. (f.0, f.3, refl, f.5)

  root-ne-null :
      (ys : Chain) → Linked s.cells ys → ys ≢ [] → (head ys ≢ null) × (has (head ys) ys ≡ true)
  root-ne-null [] l ne = absurd (ne refl)
  root-ne-null ((p, e) ∷ ys) l ne = (l.0, ground arith)

  module _ (kernel : Kernel) where
    -- With a well-formed list and fuel for it, `cleanup_packet` frees the list while the hook is
    -- still registered, and a packet that comes before `nf_unregister_hook` makes `hook_func` use a
    -- freed node.
    pub release_list-fault :
        Ends
          (λ _ s'.
            (s'.hooked ≡ s.hooked)
            × ((n : ℕ) (b : Block) (p : SkBuff)
                → hook_func kernel.skb_network_header kernel.pi4 (suc n) b (some p) s' ≡ fault))
          (release_list fuel s)
    unfolding hook_func add_to_list_network find spin_lock load
    release_list-fault = Ends-mono _ _ (release_list fuel s) release_list-Freed λ _ s' f. (
      f.4,
      λ n b p.
          let (nonzero, inside) = root-ne-null xs is.list.chain is.list.nonempty in
          let ne : (s'.root == null) ≡ false = ground (arith, f.1, is.list.first) in
          let gone : s'.cells s'.root ≡ none = f.0 s'.root ∙ rw (f.1, is.list.first, inside) in
          let free : s'.locked ≡ false = f.2 ∙ is.unlocked in simp (kernel.reads p, free, ne, gone),
    )
