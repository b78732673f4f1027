-- ===== src/NetworkProcfs/Machine.antt =====
-- The memory and the globals of network_procfs.c, and commands over them.
use kernel_modules_playgroun.Prelude.{
  ℕ, Bool, true, false, Option, none, some, ◌==◌, ltb, if◌then◌else◌, length, ◌≡◌,
}
use kernel_modules_playgroun.Prelude.Bytes.{Text}

abbrev pub Ptr : Type 0
Ptr = ℕ

abbrev pub null : Ptr
null = 0

-- `struct network_list`, less `next`: the address, the packet count (`atomic_t`, a 32-bit pattern)
-- and the bytes seen (`atomic64_t`, a 64-bit pattern).
pub record Entry : Type 0 where
  pub addr : Text
  pub count : ℕ
  pub data_used : ℕ

-- `struct network_list`
pub record NetworkList : Type 0 where
  pub entry : Entry
  pub next : Ptr

abbrev pub node : Entry → Ptr → NetworkList
node e q = record { entry = e; next = q }

abbrev pub Cells : Type 0
Cells = Ptr → Option NetworkList

abbrev pub write : Cells → Ptr → Option NetworkList → Cells
write h p c a = if a == p then c else h a

-- `struct sk_buff`, as far as it is read: the source address in its IP header is reached through
-- the network header.
pub record SkBuff : Type 0 where
  pub header : ℕ
  pub data_len : ℕ

-- `struct iphdr`
pub record Iphdr : Type 0 where
  pub saddr : ℕ

-- What `hook_func` takes from the kernel: the header of a packet, which every packet has, and the
-- text that `%pI4` renders.
pub record Kernel : Type 0 where
  pub skb_network_header : Option SkBuff → Option Iphdr
  pub pi4 : ℕ → Text
  pub header_of : SkBuff → Iphdr
  pub reads : (p : SkBuff) → skb_network_header (some p) ≡ some (header_of p)

-- The globals `root`, `tail`, `net_lock`, `packet_node_cache` (whether it exists), whether `nfho`
-- is registered, whether /proc/net_proc exists, `sock_buff` and `ip_header`; and the slab objects
-- of the cache.
pub record Net : Type 0 where
  pub cells : Cells
  pub root : Ptr
  pub tail : Ptr
  pub locked : Bool
  pub cache : Bool
  pub hooked : Bool
  pub listed : Bool
  pub sock_buff : Option SkBuff
  pub ip_header : Option Iphdr

-- How a run of the code ends: with a value, in an invalid memory access, spinning on a lock that
-- is held, or with the model's fuel used up.
pub data Run (A : Type 0) : Type 0 where
  done : A → Net → Run A
  fault : Run A
  spinning : Run A
  out_of_fuel : Run A

abbrev pub Cmd : Type 0 → Type 0
Cmd A = Net → Run A

abbrev pub pure : {A : Type 0} → A → Cmd A
pure = done

module _ {A B : Type 0} where
  abbrev pub and_then : Run A → (A → Cmd B) → Run B
  and_then (done a s) k = k a s
  and_then fault k = fault
  and_then spinning k = spinning
  and_then out_of_fuel k = out_of_fuel

  infixl 5 ◌>>=◌ ◌>>◌
  abbrev pub ◌>>=◌ : Cmd A → (A → Cmd B) → Cmd B
  m >>= k = λ s. and_then (m s) k

  abbrev pub ◌>>◌ : Cmd A → Cmd B → Cmd B
  m >> n = m >>= λ _. n

-- The run ends with a value, and `P` holds of it and of the state.
abbrev pub Ends : {A : Type 0} → (A → Net → Type 0) → Run A → Type 0
Ends P (done a s) = P a s
Ends P fault = ⊥
Ends P spinning = ⊥
Ends P out_of_fuel = ⊥

abbrev pub gets : {A : Type 0} → (Net → A) → Cmd A
gets f s = done (f s) s

abbrev pub puts : (Net → Net) → Cmd (Unit {0})
puts f s = done tt (f s)

-- The use of a pointer that the kernel handed out: `none` is an invalid one.
abbrev pub deref : {A : Type 0} → Option A → Cmd A
deref none = λ _. fault
deref (some a) = pure a

-- `*p`
unfoldable pub load : Ptr → Cmd NetworkList
load p s = if p == null then fault else elim (s.cells p) [ none ↦ fault | some n ↦ done n s ]

abbrev pub store : Ptr → Option NetworkList → Cmd (Unit {0})
store p c s = done tt (record s { cells = write s.cells p c })

-- An assignment to members of `*p`.
unfoldable pub modify : Ptr → (NetworkList → NetworkList) → Cmd (Unit {0})
modify p f = do n ← load p; store p (some (f n))

-- `strcpy(p->addr, source)`: the member is `char addr[16]`, and a longer text runs over its end.
unfoldable pub strcpy_addr : Ptr → Text → Cmd (Unit {0})
unfolding modify
strcpy_addr p source =
    if ltb (length source) 16
    then modify p (λ n. record n { entry = record n.entry { addr = source } })
    else λ _. fault

-- An answer of `kmem_cache_alloc`: the object's address, `null` if there is none, and what its
-- memory happens to hold.
pub record Block : Type 0 where
  pub address : Ptr
  pub junk : NetworkList

-- `kmem_cache_alloc(packet_node_cache, GFP_KERNEL)`
unfoldable pub kmem_cache_alloc : Block → Cmd Ptr
kmem_cache_alloc b s =
    if s.cache
    then (if b.address == null
        then done null s
        else done b.address (record s { cells = write s.cells b.address (some b.junk) }))
    else fault

-- `kmem_cache_free(packet_node_cache, p)`
unfoldable pub kmem_cache_free : Ptr → Cmd (Unit {0})
kmem_cache_free p = load p >> store p none

unfoldable pub spin_lock : Cmd (Unit {0})
spin_lock s = if s.locked then spinning else done tt (record s { locked = true })

unfoldable pub spin_unlock : Cmd (Unit {0})
spin_unlock s = done tt (record s { locked = false })

-- A run that goes on from a run that ends.
pub Ends-bind :
    {A B : Type 0} (P : A → Net → Type 0) (Q : B → Net → Type 0) (r : Run A) (k : A → Cmd B)
    → Ends P r
    → ((a : A) (s : Net) → P a s → Ends Q (k a s))
    → Ends Q (and_then r k)
Ends-bind P Q (done a s) k p next = next a s p
Ends-bind P Q fault k p next = absurd p
Ends-bind P Q spinning k p next = absurd p
Ends-bind P Q out_of_fuel k p next = absurd p

pub Ends-mono :
    {A : Type 0} (P Q : A → Net → Type 0) (r : Run A)
    → Ends P r
    → ((a : A) (s : Net) → P a s → Q a s)
    → Ends Q r
Ends-mono P Q (done a s) p weaker = weaker a s p
Ends-mono P Q fault p weaker = p
Ends-mono P Q spinning p weaker = p
Ends-mono P Q out_of_fuel p weaker = p
