-- ===== src/KoolList/ListHead.antt =====
-- The kernel's doubly linked lists (list.h), as far as kernel_linked_list.c relies on them: what
-- each operation does to the `next` and the `prev` of the `struct list_head` at an address.
use kernel_modules_playgroun.Prelude.{ℕ, ◌==◌, if◌then◌else◌, ◌≡◌}

pub record ListHead : Type 1 where
  pub Links : Type 0
  pub next : Links → ℕ → ℕ
  pub prev : Links → ℕ → ℕ
  pub list_poison1 : ℕ
  pub list_poison2 : ℕ
  -- `INIT_LIST_HEAD(h)`
  pub init_list_head : ℕ → Links → Links
  pub next-init :
      (h : ℕ) (l : Links) (p : ℕ) → next (init_list_head h l) p ≡ (if p == h then h else next l p)
  pub prev-init :
      (h : ℕ) (l : Links) (p : ℕ) → prev (init_list_head h l) p ≡ (if p == h then h else prev l p)
  -- `__list_add(new, before, behind)`
  pub list_add : ℕ → ℕ → ℕ → Links → Links
  pub next-add :
      (new before behind : ℕ) (l : Links) (p : ℕ)
      → next (list_add new before behind l) p
        ≡ (if p == before then new else if p == new then behind else next l p)
  pub prev-add :
      (new before behind : ℕ) (l : Links) (p : ℕ)
      → prev (list_add new before behind l) p
        ≡ (if p == new then before else if p == behind then new else prev l p)
  -- `list_del(entry)`
  pub list_del : ℕ → Links → Links
  pub next-del :
      (entry : ℕ) (l : Links) (p : ℕ)
      → next (list_del entry l) p ≡ (
          if p == entry then list_poison1 else if p == prev l entry then next l entry else next l p)
  pub prev-del :
      (entry : ℕ) (l : Links) (p : ℕ)
      → prev (list_del entry l) p ≡ (
          if p == entry then list_poison2 else if p == next l entry then prev l entry else prev l p)
