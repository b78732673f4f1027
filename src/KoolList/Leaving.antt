-- ===== src/KoolList/Leaving.antt =====
-- What the exit of kernel_linked_list.c leaves behind.
use kernel_modules_playgroun.Prelude.{
  ==_sym, ℕ, false, ◌==◌, ==_refl, ◌≡◌, refl, ◌∙◌, List, [], ◌∷◌,
}
use kernel_modules_playgroun.KoolList.ListHead.{ListHead}
use kernel_modules_playgroun.KoolList.Driver.{Kool, Kools, hello_exit}
use kernel_modules_playgroun.KoolList.Ring.{Apart, Distinct, Ring}

abbrev pub last : ℕ → List Kool → ℕ
last q [] = q
last q (y ∷ ys) = last y.list ys

last-Apart : (q : ℕ) (y : Kool) (ys : List Kool) → Apart q (y ∷ ys) → (q == last y.list ys) ≡ false
last-Apart q y [] a = a.0
last-Apart q y (z ∷ zs) a = last-Apart q z zs a.1

module _ (lists : ListHead) (mylist : ℕ) where
  open lists use {Links, next, prev, next-del, prev-del}

  prev-last :
      (s : Kools Links) (q : ℕ) (ys : List Kool)
      → Ring lists mylist s q ys
      → prev s.links mylist ≡ last q ys
  prev-last s q [] r = r.1
  prev-last s q (y ∷ ys) (n, v, k, r) = prev-last s y.list ys r

  -- Behind the node `f`, the first one, the list goes on up to `f` itself when the head is taken
  -- out.
  Ring-exit :
      (s : Kools Links) (f : ℕ)
      → next s.links mylist ≡ f
      → (mylist == f) ≡ false
      → (q : ℕ) (ys : List Kool) → (mylist == q) ≡ false
      → Apart mylist ys
      → Apart f ys
      → Apart q ys
      → Distinct ys
      → Ring lists mylist s q ys
      → Ring lists f (hello_exit lists mylist s) q ys
  unfolding hello_exit
  Ring-exit s f first hf q [] hq ah af aq d (n, v) = (
    next-del mylist s.links q ∙ rw (==_sym mylist q hq, v, ==_refl) first,
    prev-del mylist s.links f ∙ rw (==_sym mylist f hf, first, ==_refl) v,
  )
  Ring-exit s f first hf q (y ∷ ys) hq (hy, ah) (fy, af) aq (yd, d) (n, v, k, r) = (
    next-del mylist s.links q
        ∙ rw (==_sym mylist q hq, prev-last s y.list ys r, last-Apart q y ys aq) n,
    prev-del mylist s.links y.list ∙ rw (==_sym mylist y.list hy, first, ==_sym f y.list fy) v,
    k,
    Ring-exit s f first hf y.list ys hy ah af yd d r,
  )

-- A list of nodes that hangs at the head when the module is unloaded stays behind: the exit takes
-- the head out alone, the nodes are still allocated and linked to each other as a ring, from the
-- first one to the last and back, and the head points to none of them.
pub hello_exit-Ring :
    (lists : ListHead) (mylist : ℕ) (s : Kools lists.Links) (x : Kool) (xs : List Kool)
    → Apart mylist (x ∷ xs)
    → Distinct (x ∷ xs)
    → Ring lists mylist s mylist (x ∷ xs)
    → let t = hello_exit lists mylist s in
      (t.held ≡ s.held)
      × Ring lists x.list t x.list xs
      × (lists.next t.links mylist ≡ lists.list_poison1)
      × (lists.prev t.links mylist ≡ lists.list_poison2)
unfolding hello_exit
hello_exit-Ring lists mylist s x xs (hx, a) (xd, d) (n, v, k, r) = (
  refl,
  Ring-exit lists mylist s x.list n hx x.list xs hx a xd xd d r,
  lists.next-del mylist s.links mylist ∙ rw ==_refl refl,
  lists.prev-del mylist s.links mylist ∙ rw ==_refl refl,
)
