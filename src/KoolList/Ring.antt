-- ===== src/KoolList/Ring.antt =====
-- The circular list that kernel_linked_list.c builds, and what it prints of it.
use kernel_modules_playgroun.Prelude.{
  ==_sym, ℕ, zero, suc, ◌<◌, length, false, ◌==◌, ==_refl, ◌≡◌, refl, ap, ◌∙◌, Option, some, List,
  [], ◌∷◌, map, arith,
}
use kernel_modules_playgroun.KoolList.ListHead.{ListHead}
use kernel_modules_playgroun.KoolList.Driver.{
  Kool, Kools, write_kool, round_kool, add_node, add_nodes, list_for_each, with_lines, and_print,
  hello_init,
}

-- `a` is not the address of one of the nodes; all addresses are different.
abbrev pub Apart : ℕ → List Kool → Type 0
Apart a [] = Unit {0}
Apart a (x ∷ xs) = ((a == x.list) ≡ false) × Apart a xs

abbrev pub Distinct : List Kool → Type 0
Distinct [] = Unit {0}
Distinct (x ∷ xs) = Apart x.list xs × Distinct xs

-- The nodes that are added in the rounds `n` to 1, before those that are there.
abbrev nodes : (ℕ → ℕ) → ℕ → List Kool → List Kool
nodes kmalloc zero xs = xs
nodes kmalloc (suc i) xs = nodes kmalloc i (round_kool (kmalloc (suc i)) (suc i) ∷ xs)

nodes-Apart :
    (a : ℕ) (kmalloc : ℕ → ℕ) (n : ℕ) (xs : List Kool) → Apart a (nodes kmalloc n xs) → Apart a xs
nodes-Apart a kmalloc zero xs d = d
nodes-Apart a kmalloc (suc i) xs d = (nodes-Apart a kmalloc i (_ ∷ xs) d).1

nodes-Distinct :
    (kmalloc : ℕ → ℕ) (n : ℕ) (xs : List Kool) → Distinct (nodes kmalloc n xs) → Distinct xs
nodes-Distinct kmalloc zero xs d = d
nodes-Distinct kmalloc (suc i) xs d = (nodes-Distinct kmalloc i (_ ∷ xs) d).1

module _ (lists : ListHead) (h : ℕ) where
  open lists use {Links, next, prev, list_add, next-add, prev-add}

  -- From `p` on the nodes `xs` are linked, in both directions, up to the head `h`.
  abbrev pub Ring : Kools Links → ℕ → List Kool → Type 0
  Ring s p [] = (next s.links p ≡ h) × (prev s.links h ≡ p)
  Ring s p (x ∷ xs) =
      (next s.links p ≡ x.list)
      × (prev s.links x.list ≡ p)
      × (s.kools x.list ≡ some x)
      × Ring s x.list xs

  abbrev pub added : Kool → Kools Links → Kools Links
  added x s = record {
    links = list_add x.list h (next s.links h) s.links;
    kools = write_kool x s.kools;
    held = x.list ∷ s.held;
  }

  -- Adding a node at the head changes the links of the head, of the node and of the first one only.
  next-added :
      (x : Kool) (s : Kools Links) (q : ℕ)
      → (h == q) ≡ false
      → (x.list == q) ≡ false
      → next (added x s).links q ≡ next s.links q
  next-added x s q hq xq =
      next-add x.list h (next s.links h) s.links q ∙ rw (==_sym h q hq, ==_sym x.list q xq) refl

  prev-added :
      (x : Kool) (s : Kools Links) (q : ℕ)
      → (x.list == q) ≡ false
      → (next s.links h == q) ≡ false
      → prev (added x s).links q ≡ prev s.links q
  prev-added x s q xq fq =
      prev-add x.list h (next s.links h) s.links q
      ∙ rw (==_sym x.list q xq, ==_sym (next s.links h) q fq) refl

  Ring-rest :
      (s : Kools Links) (x : Kool) (ys : List Kool)
      → (x.list == h) ≡ false
      → (next s.links h == h) ≡ false
      → (q : ℕ) → (h == q) ≡ false
      → (x.list == q) ≡ false
      → Apart x.list ys
      → Apart h ys
      → Apart (next s.links h) ys
      → Ring s q ys
      → Ring (added x s) q ys
  Ring-rest s x [] xh fh q hq xq ax ah af (n, v) =
      (next-added x s q hq xq ∙ n, prev-added x s h xh fh ∙ v)
  Ring-rest s x (y ∷ ys) xh fh q hq xq (xy, ax) (hy, ah) (fy, af) (n, v, k, r) = (
    next-added x s q hq xq ∙ n,
    prev-added x s y.list xy fy ∙ v,
    rw (==_sym x.list y.list xy) k,
    Ring-rest s x ys xh fh y.list hy xy ax ah af r,
  )

  next-added_head : (x : Kool) (s : Kools Links) → next (added x s).links h ≡ x.list
  next-added_head x s = next-add x.list h (next s.links h) s.links h ∙ rw (==_refl h) refl

  prev-added_new : (x : Kool) (s : Kools Links) → prev (added x s).links x.list ≡ h
  prev-added_new x s = prev-add x.list h (next s.links h) s.links x.list ∙ rw (==_refl x.list) refl

  next-added_new :
      (x : Kool) (s : Kools Links)
      → (h == x.list) ≡ false
      → next (added x s).links x.list ≡ next s.links h
  next-added_new x s hx =
      next-add x.list h (next s.links h) s.links x.list
      ∙ rw (==_sym h x.list hx, ==_refl x.list) refl

  prev-added_first :
      (x : Kool) (s : Kools Links) (q : ℕ)
      → next s.links h ≡ q
      → (x.list == q) ≡ false
      → prev (added x s).links q ≡ x.list
  prev-added_first x s q first xq =
      prev-add x.list h (next s.links h) s.links q ∙ rw (==_sym x.list q xq, first, ==_refl q) refl

  Ring-added :
      (s : Kools Links) (x : Kool) (xs : List Kool)
      → (h == x.list) ≡ false
      → Apart h xs
      → Apart x.list xs
      → Distinct xs
      → Ring s h xs
      → Ring (added x s) h (x ∷ xs)
  Ring-added s x xs hx ah ax d r =
      (next-added_head x s, prev-added_new x s, rw (==_refl x.list) refl, go xs ah ax d r)
    where
      xh : (x.list == h) ≡ false
      xh = ==_sym h x.list hx

      go :
          (ys : List Kool)
          → Apart h ys
          → Apart x.list ys
          → Distinct ys
          → Ring s h ys
          → Ring (added x s) x.list ys
      go [] ah ax d (n, v) = (next-added_new x s hx ∙ n, prev-added_first x s h n xh)
      go (y ∷ ys) (hy, ah) (xy, ax) (yd, d) (n, v, k, r) = (
        next-added_new x s hx ∙ n,
        prev-added_first x s y.list n xy,
        rw (==_sym x.list y.list xy) k,
        Ring-rest s x ys xh (rw n (==_sym h y.list hy)) y.list hy xy ax ah (rw n yd) r,
      )

  -- What the rounds leave: a list of the new nodes before the old, which are held.
  abbrev Built : List Kool → Option (Kools Links) → Type 0
  Built xs r = (t : Kools Links) × (r ≡ some t) × Ring t h xs × (t.held ≡ map Kool.list xs)

  add_nodes-Built :
      (n : ℕ) (kmalloc : ℕ → ℕ) (s : Kools Links) (xs : List Kool)
      → Apart 0 (nodes kmalloc n xs)
      → Apart h (nodes kmalloc n xs)
      → Distinct (nodes kmalloc n xs)
      → Ring s h xs
      → s.held ≡ map Kool.list xs
      → Built (nodes kmalloc n xs) (add_nodes lists h n kmalloc s)
  unfolding add_nodes add_node
  add_nodes-Built zero kmalloc s xs z a d r e = (s, refl, r, e)
  add_nodes-Built (suc i) kmalloc s xs z a d r e =
      let x = round_kool (kmalloc (suc i)) (suc i) in
      let new = nodes-Apart 0 kmalloc i (x ∷ xs) z in
      let (hx, ha) = nodes-Apart h kmalloc i (x ∷ xs) a in
      let (ax, dx) = nodes-Distinct kmalloc i (x ∷ xs) d in
      rw (==_sym 0 x.list new.0) (
        add_nodes-Built i kmalloc (added x s) (x ∷ xs) z a d (Ring-added s x xs hx ha ax dx r)
          (ap (λ l. x.list ∷ l) e))

  list_for_each-Ring :
      (n : ℕ) (s : Kools Links) (p : ℕ) (xs : List Kool)
      → length xs < n
      → Apart h xs
      → Ring s p xs
      → list_for_each lists h n s (next s.links p) ≡ some (map (λ x. (x.to, x.from)) xs)
  unfolding list_for_each
  list_for_each-Ring zero s p xs l a r = absurd (omega (arith, l))
  list_for_each-Ring (suc n) s p [] l a (e, v) = rw (e, ==_refl) refl
  list_for_each-Ring (suc n) s p (x ∷ xs) l (hx, a) (e, v, k, r) =
      rw (e, ==_sym h x.list hx, k, list_for_each-Ring n s x.list xs (omega (arith, l)) a r) refl

-- The five nodes of the module, from the head on.
abbrev pub five : (ℕ → ℕ) → List Kool
five kmalloc = nodes kmalloc 5 []

-- If `kmalloc` answers five addresses that differ from each other, from NULL and from the head, the
-- init ends without a crash, six rounds of its second loop being enough: it prints the five pairs
-- (10 + i, 20 i) from i = 1 to 5, and leaves the nodes linked in that order, in both directions,
-- and allocated.
pub hello_init-Ring :
    (lists : ListHead) (mylist : ℕ) (kmalloc : ℕ → ℕ) (s : Kools lists.Links) (fuel : ℕ)
    → 5 < fuel
    → Apart 0 (five kmalloc)
    → Apart mylist (five kmalloc)
    → Distinct (five kmalloc)
    → s.held ≡ []
    → (t : Kools lists.Links) × (hello_init lists mylist fuel kmalloc s
        ≡ some (t, (11, 20) ∷ (12, 40) ∷ (13, 60) ∷ (14, 80) ∷ (15, 100) ∷ []))
      × Ring lists mylist t mylist (five kmalloc)
      × (t.held ≡ kmalloc 1 ∷ kmalloc 2 ∷ kmalloc 3 ∷ kmalloc 4 ∷ kmalloc 5 ∷ [])
unfolding hello_init
hello_init-Ring lists mylist kmalloc s fuel enough z a d e =
    let start = record s { links = lists.init_list_head mylist s.links } in
    let empty : Ring lists mylist start mylist [] = (
      lists.next-init mylist s.links mylist ∙ rw ==_refl refl,
      lists.prev-init mylist s.links mylist ∙ rw ==_refl refl,
    ) in
    let print =
      λ (u : Kools lists.Links). list_for_each lists mylist fuel u (lists.next u.links mylist) in
    let (t, built, ring, held) = add_nodes-Built lists mylist 5 kmalloc start [] z a d empty e in
    (
      t,
      ap (λ r. and_print lists mylist r print) built
          ∙ ap (with_lines lists mylist t)
              (list_for_each-Ring lists mylist fuel t mylist (five kmalloc) enough a ring),
      ring,
      held,
    )
