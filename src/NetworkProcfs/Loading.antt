-- ===== src/NetworkProcfs/Loading.antt =====
-- `init_packet` of network_procfs.c, and the traffic behind it.
use kernel_modules_playgroun.Prelude.{
  ℕ, ◌+◌, ◌<◌, ◌≡◌, ◌≢◌, refl, ◌∙◌, true, false, not, ◌&&◌, Bool-cases, inl, inr, some, List, [],
  ◌∷◌, ◌==◌, ==_refl, if◌then◌else◌, length, arith, pos, enomem,
}
use kernel_modules_playgroun.Prelude.Bytes.{same_text_iff}
use kernel_modules_playgroun.NetworkProcfs.Machine.{
  Ptr, null, Entry, node, Net, fault, Ends, Ends-bind, Kernel, ◌>>◌, load, modify, kmem_cache_alloc,
  strcpy_addr,
}
use kernel_modules_playgroun.NetworkProcfs.Driver.{Answers, init_packet}
use kernel_modules_playgroun.NetworkProcfs.Linked.{Chain, IsNet}
use kernel_modules_playgroun.NetworkProcfs.Traffic.{
  Packet, Later, Supplied, Supplied-Later, Tells, packets_from, bytes_from, traffic, traffic-Tells,
}

-- The state in which `insmod` finds the globals, whatever the slab allocator holds.
abbrev pub IsUnloaded : Net → Type 0
IsUnloaded s = (s.locked ≡ false) × (s.hooked ≡ false) × (s.listed ≡ false)

-- The sentinel.
abbrev pub root_entry : Entry
root_entry = record { addr = []; count = 0; data_used = 0 }

sentinel-IsNet :
    (s : Net) (p : Ptr)
    → p ≢ null
    → s.cells p ≡ some (node root_entry null)
    → s.root ≡ p
    → s.tail ≡ p
    → s.locked ≡ false
    → s.cache ≡ true
    → IsNet s ((p, root_entry) ∷ [])
sentinel-IsNet s p nonzero at root tail unlocked cached = record {
  list = record { chain = (nonzero, refl, at, tt); nonempty = λ c. cc; first = root; final = tail };
  unlocked = unlocked;
  cached = cached;
}

module _ (a : Answers) (s : Net) (unloaded : IsUnloaded s) where
  -- From a state where nothing is registered, with its allocations granted, `init_packet` makes the
  -- list of the sentinel alone and registers the hook. It returns 0 or -ENOMEM by the answer for
  -- the /proc entry, and the list and the hook are there in both cases. No other object changes.
  pub init_packet_lem :
      a.cache_created ≡ true
      → a.root_block.address ≢ null
      → Ends
          (λ ret s'.
            IsNet s' ((a.root_block.address, root_entry) ∷ [])
            × (s'.hooked ≡ true)
            × (s'.listed ≡ a.proc_created)
            × (ret ≡ (if a.proc_created then pos 0 else enomem))
            × ((p : Ptr) → p ≢ a.root_block.address → s'.cells p ≡ s.cells p))
          (init_packet a s)
  unfolding init_packet kmem_cache_alloc modify load strcpy_addr
  init_packet_lem created nonzero =
      let ne : (a.root_block.address == null) ≡ false = ground arith in
      simp (created, ne, ==_refl)
        (elim (Bool-cases a.proc_created) [
          | inl e ↦ simp e (
            sentinel-IsNet _ _ nonzero (rw ==_refl) refl refl unloaded.0 refl,
            refl,
            refl,
            refl,
            λ p np. ground arith,
          )
          | inr e ↦ simp e (
            sentinel-IsNet _ _ nonzero (rw ==_refl) refl refl unloaded.0 refl,
            refl,
            refl,
            refl,
            λ p np. ground arith,
          )
        ])

  -- Without the cache, or without an object for the sentinel, the code uses an invalid pointer.
  init_packet-fault :
      (a.cache_created && not (a.root_block.address == null)) ≡ false → init_packet a s ≡ fault
  unfolding init_packet kmem_cache_alloc modify load
  init_packet-fault h = ground arith

module _ (kernel : Kernel) where
  -- Let the allocations of `init_packet` be granted in a state where nothing is registered, and the
  -- slab allocator have a new object for each packet. Then `init_packet` and any sequence of
  -- packets end, with fuel above the number of packets plus one, and the list has an entry for
  -- exactly the sources that were seen, with the number of their packets and the sum of their
  -- sizes, each wrapped to the width of its counter. The source with the empty text is left out:
  -- its packets would be counted on the sentinel.
  pub loaded_traffic-Tells :
      (a : Answers) (s : Net) (fuel : ℕ) (ps : List Packet)
      → IsUnloaded s
      → a.cache_created ≡ true
      → a.root_block.address ≢ null
      → Supplied s ps
      → Later a.root_block.address ps
      → length ps + 1 < fuel
      → Ends
          (λ _ s'.
            (ys : Chain) × IsNet s' ys
            × Tells kernel (λ t. packets_from kernel t ps) (λ t. bytes_from kernel t ps) ys)
          ((do init_packet a; traffic kernel fuel ps) s)
  loaded_traffic-Tells a s fuel ps unloaded created nonzero sup later enough =
      Ends-bind _ _ (init_packet a s) _ (init_packet_lem a s unloaded created nonzero)
        λ _ s' (is, _, _, _, same).
          traffic-Tells kernel fuel ps s' _ (λ _. 0) (λ _. 0) _ _ is (omega arith)
            (Supplied-Later s s' a.root_block.address ps (λ c nc free. same c nc ∙ free) later sup)
            (λ t z. refl) (λ t ne. ground (arith, same_text_iff [] t)) (λ t. omega arith)
            (λ t. omega arith)
