-- ===== src/Filters/Loading.antt =====
-- Loading and unloading the packet filters.
use kernel_modules_playgroun.Prelude.{
  or-false, and-true, ℕ, Bool, true, false, Bool-cases, ltb, ◌==◌, ==_refl, ◌&&◌, ◌≡◌, refl, ap,
  ◌∙◌, inl, inr, List, [], ◌∷◌,
}
use kernel_modules_playgroun.Filters.Netfilter.{
  Ops, nf_ip_pri_first, insert, without, registered, hooked_at, Netfilter,
}
use kernel_modules_playgroun.Filters.Driver.{
  block_ops, out_ops, my_ops, init_packet, cleanup_packet, init_module, cleanup_module,
  init_filter_if, hello_init, hello_cleanup,
}

without-insert :
    (o : Ops) (xs : List Ops)
    → registered o.address xs ≡ false
    → without o.address (insert o xs) ≡ xs
without-insert o [] e = rw ==_refl refl
without-insert o (x ∷ xs) e =
    let (here, there) = or-false (o.address == x.address) (registered o.address xs) e in
    elim (Bool-cases (ltb o.priority x.priority)) [
      | inl first ↦ rw (first, ==_refl) refl
      | inr later ↦ rw (later, here) (ap (λ ys. x ∷ ys) (without-insert o xs there))
    ]

module _ (netfilter : Netfilter) where
  open netfilter use {
    Table, hooks, nf_register_hook, nf_unregister_hook, hooks-register, hooks-unregister,
  }

  unregister-register :
      (o : Ops) (t : Table) (pf hooknum : ℕ)
      → registered o.address (hooks t pf hooknum) ≡ false
      → hooks (nf_unregister_hook o (nf_register_hook o t)) pf hooknum ≡ hooks t pf hooknum
  unregister-register o t pf hooknum new =
      hooks-unregister o (nf_register_hook o t) pf hooknum
      ∙ elim (Bool-cases (hooked_at o pf hooknum)) [
        | inl here ↦
            rw (here, hooks-register o t pf hooknum, here)
              (without-insert o (hooks t pf hooknum) new)
        | inr elsewhere ↦ rw (elsewhere, hooks-register o t pf hooknum, elsewhere) refl
      ]

-- Each of the three modules leaves every chain of hooks as it was, in each protocol family and at
-- each hook number, once it is loaded and unloaded, if its structure is not in the chain before.
pub unload-load :
    (netfilter : Netfilter) (nfho : ℕ) (t : netfilter.Table) (pf hooknum : ℕ)
    → registered nfho (netfilter.hooks t pf hooknum) ≡ false
    → (netfilter.hooks (cleanup_packet netfilter nfho (init_packet netfilter nfho t).0) pf hooknum
        ≡ netfilter.hooks t pf hooknum)
      × (netfilter.hooks (cleanup_module netfilter nfho (init_module netfilter nfho t).0) pf hooknum
          ≡ netfilter.hooks t pf hooknum)
      × (netfilter.hooks (hello_cleanup netfilter nfho (hello_init netfilter nfho t).0) pf hooknum
          ≡ netfilter.hooks t pf hooknum)
unfolding init_packet cleanup_packet init_module cleanup_module init_filter_if hello_init
    hello_cleanup
unload-load netfilter nfho t pf hooknum new = (
  unregister-register netfilter (block_ops nfho) t pf hooknum new,
  unregister-register netfilter (out_ops nfho) t pf hooknum new,
  unregister-register netfilter (my_ops nfho) t pf hooknum new,
)

-- A module that is loaded comes first in its chain if all others there have a later priority.
abbrev pub all_later : List Ops → Bool
all_later [] = true
all_later (x ∷ xs) = ltb nf_ip_pri_first x.priority && all_later xs

pub insert_first :
    (o : Ops) (xs : List Ops)
    → o.priority ≡ nf_ip_pri_first
    → all_later xs ≡ true
    → insert o xs ≡ o ∷ xs
insert_first o [] first later = refl
insert_first o (x ∷ xs) first later =
    let less : ltb nf_ip_pri_first x.priority ≡ true =
      (and-true (ltb nf_ip_pri_first x.priority) (all_later xs) later).0 in
    rw (first, less) refl
