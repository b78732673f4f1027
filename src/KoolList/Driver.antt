-- ===== src/KoolList/Driver.antt =====
-- The functions of kernel_linked_list.c.
use kernel_modules_playgroun.Prelude.{
  ℕ, zero, suc, ◌+◌, ◌*◌, ◌==◌, if◌then◌else◌, Option, none, some, List, [], ◌∷◌,
}
use kernel_modules_playgroun.KoolList.ListHead.{ListHead}

-- `struct kool_list`, at the address of its `list`.
pub record Kool : Type 0 where
  pub list : ℕ
  pub to : ℕ
  pub from : ℕ

-- The links of the list heads, the nodes behind the pointers, and the nodes that are allocated, the
-- latest first.
pub record Kools (Links : Type 0) : Type 0 where
  pub links : Links
  pub kools : ℕ → Option Kool
  pub held : List ℕ

abbrev pub write_kool : Kool → (ℕ → Option Kool) → ℕ → Option Kool
write_kool x kools p = if p == x.list then some x else kools p

-- What round `i` writes into a new node.
abbrev pub round_kool : ℕ → ℕ → Kool
round_kool tmp i = record { list = tmp; to = 10 + i; from = 20 * i }

-- What the loop prints of the node behind `pos`, before the rest; a node that is none is a crash.
abbrev pub shown : Option Kool → Option (List (ℕ × ℕ)) → Option (List (ℕ × ℕ))
shown (some x) (some rest) = some ((x.to, x.from) ∷ rest)
shown _ _ = none

-- `mylist` is the address of `mylist.list`; `kmalloc i` is that of the `list` in the node which
-- `kmalloc` answers in round `i`, or 0 where it answers NULL, which is not tested. `none` is a
-- crash, or a loop that goes on when the fuel is used up.
module _ (lists : ListHead) (mylist : ℕ) where
  open lists use {Links, next, init_list_head, list_add, list_del}

  unfoldable pub add_node : ℕ → ℕ → Kools Links → Option (Kools Links)
  add_node tmp i s =
      if tmp == 0
      then none
      else some (record {
        links = list_add tmp mylist (next s.links mylist) s.links;
        kools = write_kool (round_kool tmp i) s.kools;
        held = tmp ∷ s.held;
      })

  abbrev pub and_then :
      Option (Kools Links) → (Kools Links → Option (Kools Links)) → Option (Kools Links)
  and_then none k = none
  and_then (some s) k = k s

  unfoldable pub add_nodes : ℕ → (ℕ → ℕ) → Kools Links → Option (Kools Links)
  add_nodes zero kmalloc s = some s
  add_nodes (suc i) kmalloc s =
      and_then (add_node (kmalloc (suc i)) (suc i) s) (add_nodes i kmalloc)

  unfoldable pub list_for_each : ℕ → Kools Links → ℕ → Option (List (ℕ × ℕ))
  list_for_each zero s pos = none
  list_for_each (suc n) s pos =
      let rest = list_for_each n s (next s.links pos) in
      if pos == mylist then some [] else shown (s.kools pos) rest

  abbrev pub with_lines : Kools Links → Option (List (ℕ × ℕ)) → Option (Kools Links × List (ℕ × ℕ))
  with_lines s none = none
  with_lines s (some lines) = some (s, lines)

  abbrev pub and_print :
      Option (Kools Links)
      → (Kools Links → Option (List (ℕ × ℕ)))
      → Option (Kools Links × List (ℕ × ℕ))
  and_print none k = none
  and_print (some s) k = with_lines s (k s)

  -- The state and the lines printed; it returns 0.
  unfoldable pub hello_init : ℕ → (ℕ → ℕ) → Kools Links → Option (Kools Links × List (ℕ × ℕ))
  hello_init fuel kmalloc s =
      let t = record s { links = init_list_head mylist s.links } in
      and_print (add_nodes 5 kmalloc t) (λ u. list_for_each fuel u (next u.links mylist))

  unfoldable pub hello_exit : Kools Links → Kools Links
  hello_exit s = record s { links = list_del mylist s.links }
