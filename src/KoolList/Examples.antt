-- ===== src/KoolList/Examples.antt =====
-- List heads as two functions on addresses, and nodes 64 bytes apart.
use kernel_modules_playgroun.Prelude.{
  ℕ, ◌*◌, ◌==◌, if◌then◌else◌, ◌≡◌, refl, none, some, [], ◌∷◌, arith,
}
use kernel_modules_playgroun.KoolList.ListHead.{ListHead}
use kernel_modules_playgroun.KoolList.Driver.{
  Kool, Kools, round_kool, write_kool, hello_init, hello_exit,
}
use kernel_modules_playgroun.KoolList.Ring.{Ring, five, hello_init-Ring}
use kernel_modules_playgroun.KoolList.Leaving.{hello_exit-Ring}

pub record Heads : Type 0 where
  pub next : ℕ → ℕ
  pub prev : ℕ → ℕ

abbrev lists : ListHead
lists = record {
  Links = Heads;
  next = λ l. l.next;
  prev = λ l. l.prev;
  list_poison1 = 256;
  list_poison2 = 512;
  init_list_head = λ h l. record {
    next = λ p. if p == h then h else l.next p;
    prev = λ p. if p == h then h else l.prev p;
  };
  next-init = λ h l p. refl;
  prev-init = λ h l p. refl;
  list_add = λ new before behind l. record {
    next = λ p. if p == before then new else if p == new then behind else l.next p;
    prev = λ p. if p == new then before else if p == behind then new else l.prev p;
  };
  next-add = λ new before behind l p. refl;
  prev-add = λ new before behind l p. refl;
  list_del = λ entry l. record {
    next = λ p. if p == entry then 256 else if p == l.prev entry then l.next entry else l.next p;
    prev = λ p. if p == entry then 512 else if p == l.next entry then l.prev entry else l.prev p;
  };
  next-del = λ entry l p. refl;
  prev-del = λ entry l p. refl;
}

abbrev kmalloc : ℕ → ℕ
kmalloc i = 64 * i

abbrev unloaded : Kools Heads
unloaded = record { links = record { next = λ p. 0; prev = λ p. 0 }; kools = λ p. none; held = [] }

hello_init-Ring_example :
    (t : Kools Heads) × (hello_init lists 8 6 kmalloc unloaded
      ≡ some (t, (11, 20) ∷ (12, 40) ∷ (13, 60) ∷ (14, 80) ∷ (15, 100) ∷ []))
    × Ring lists 8 t 8 (five kmalloc)
    × (t.held ≡ 64 ∷ 128 ∷ 192 ∷ 256 ∷ 320 ∷ [])
hello_init-Ring_example =
    hello_init-Ring lists 8 kmalloc unloaded 6 (omega arith)
      (refl, (refl, (refl, (refl, (refl, tt))))) (refl, (refl, (refl, (refl, (refl, tt)))))
      (
        (refl, (refl, (refl, (refl, tt)))),
        ((refl, (refl, (refl, tt))), ((refl, (refl, tt)), ((refl, tt), (tt, tt)))),
      )
      refl

-- Two nodes at the head.
abbrev first : Kool
first = round_kool 64 1

abbrev second : Kool
second = round_kool 128 2

abbrev loaded : Kools Heads
loaded = record {
  links = lists.list_add 64 8 128 (lists.list_add 128 8 8 (lists.init_list_head 8 unloaded.links));
  kools = write_kool first (write_kool second (λ p. none));
  held = 64 ∷ 128 ∷ [];
}

hello_exit-Ring_test :
    let t = hello_exit lists 8 loaded in
    (t.held ≡ 64 ∷ 128 ∷ [])
    × Ring lists 64 t 64 (second ∷ [])
    × (lists.next t.links 8 ≡ 256)
    × (lists.prev t.links 8 ≡ 512)
hello_exit-Ring_test =
    hello_exit-Ring lists 8 loaded first (second ∷ []) (refl, (refl, tt)) ((refl, tt), (tt, tt))
      (refl, refl, refl, (refl, refl, refl, (refl, refl)))
