-- ===== src/NetworkProcfs/Driver.antt =====
-- The functions of network_procfs.c.
use kernel_modules_playgroun.Prelude.{
  ℕ, zero, suc, ◌+◌, Bool, true, false, Option, none, some, ◌==◌, if◌then◌else◌, take, u32, u64,
  sign_extend, signed32, signed64, div_trunc, ℤ, pos, enomem, [],
}
use kernel_modules_playgroun.Prelude.Bytes.{Text, same_text}
use kernel_modules_playgroun.NetworkProcfs.Machine.{
  Ptr, null, Entry, out_of_fuel, Cmd, pure, ◌>>=◌, ◌>>◌, gets, puts, load, deref, modify, SkBuff,
  Iphdr, strcpy_addr, Block, kmem_cache_alloc, kmem_cache_free, spin_lock, spin_unlock,
}

abbrev pub nf_accept : ℕ
nf_accept = 1

-- `free`: the rest of the list first, then the node.
unfoldable pub free : ℕ → Ptr → Cmd (Unit {0})
free zero p = λ _. out_of_fuel
free (suc fuel) p =
    if p == null then pure tt else do n ← load p; free fuel n.next; kmem_cache_free p

-- `atomic_inc(&temp->count); atomic64_add(data_size, &temp->data_used);`
unfoldable pub bump : ℕ → Entry → Entry
bump data_size e = record e {
  count = u32 (e.count + 1);
  data_used = u64 (e.data_used + sign_extend data_size);
}

-- The branch of the search loop on a match: `added = 1; break`.
unfoldable pub hit : Ptr → ℕ → Cmd Bool
hit temp data_size = do modify temp (λ n. record n { entry = bump data_size n.entry }); pure true

-- The search loop of `add_to_list_network`; the result is the flag `added`.
unfoldable pub find : ℕ → Ptr → Text → ℕ → Cmd Bool
find zero temp saddr data_size = λ _. out_of_fuel
find (suc fuel) temp saddr data_size = if temp == null then pure false else do
  n ← load temp
  if same_text n.entry.addr saddr then hit temp data_size else find fuel n.next saddr data_size

-- The branch `if (!added)`: a new node behind `tail`.
unfoldable pub append_node : Block → Text → ℕ → Cmd (Unit {0})
append_node b saddr data_size = do
  old ← gets (λ s. s.tail)
  fresh ← kmem_cache_alloc b
  modify old (λ n. record n { next = fresh })
  linked ← load old
  puts (λ s. record s { tail = linked.next })
  modify linked.next (λ n. record n { entry = record n.entry { count = 1 } })
  modify linked.next
      (λ n. record n { entry = record n.entry { data_used = sign_extend data_size } })
  strcpy_addr linked.next saddr
  modify linked.next (λ n. record n { next = null })

unfoldable pub add_to_list_network : ℕ → Block → Text → ℕ → Cmd (Unit {0})
add_to_list_network fuel b saddr data_size = do
  temp ← gets (λ s. s.root)
  spin_lock
  added ← find fuel temp saddr data_size
  if added then pure tt else append_node b saddr data_size
  spin_unlock

-- `skb_network_header` and the rendering of `%pI4` are the kernel's; `snprintf` keeps 15 bytes of
-- the text. The unsigned `data_len` is passed on as the pattern of an `int`.
module _ (skb_network_header : Option SkBuff → Option Iphdr) (pi4 : ℕ → Text) where
  unfoldable pub hook_func : ℕ → Block → Option SkBuff → Cmd ℕ
  hook_func fuel b skb = do
    puts (λ s. record s { sock_buff = skb })
    header ← deref (skb_network_header skb)
    puts (λ s. record s { ip_header = some header })
    elim skb [
      | none ↦ pure nf_accept
      | some packet ↦ do
        add_to_list_network fuel b (take 15 (pi4 header.saddr)) (u32 packet.data_len)
        pure nf_accept
    ]

-- `return root->next`, whatever `*pos` is, which it also leaves alone.
unfoldable pub my_start : ℕ → Cmd Ptr
my_start position = do p ← gets (λ s. s.root); n ← load p; pure n.next

unfoldable pub my_next : Ptr → ℕ → Cmd Ptr
my_next v position = do n ← load v; if n.next == null then pure null else pure n.next

-- The values that `my_show` prints: an `int`, and a `long` divided with truncation towards 0.
pub record Line : Type 0 where
  pub addr : Text
  pub packets : ℤ
  pub kilobytes : ℤ

unfoldable pub my_show : Ptr → Cmd Line
my_show v = do
  n ← load v
  pure (record {
    addr = n.entry.addr;
    packets = signed32 n.entry.count;
    kilobytes = div_trunc (signed64 n.entry.data_used) 1024;
  })

-- The loop of `my_write`.
unfoldable pub clear : ℕ → Ptr → Cmd (Unit {0})
clear zero temp = λ _. out_of_fuel
clear (suc fuel) temp = if temp == null then pure tt else do
  modify temp (λ n. record n { entry = record n.entry { count = 0 } })
  modify temp (λ n. record n { entry = record n.entry { data_used = 0 } })
  n ← load temp
  clear fuel n.next

unfoldable pub my_write : ℕ → ℕ → Cmd ℤ
my_write fuel len = do
  spin_lock
  temp ← gets (λ s. s.root)
  clear fuel temp
  spin_unlock
  pure (signed32 (u32 len))

-- What the kernel answers while the module is loaded.
pub record Answers : Type 0 where
  pub cache_created : Bool
  pub root_block : Block
  pub proc_created : Bool

unfoldable pub init_packet : Answers → Cmd ℤ
init_packet a = do
  puts (λ s. record s { cache = a.cache_created })
  p ← kmem_cache_alloc a.root_block
  puts (λ s. record s { root = p })
  modify p (λ n. record n { entry = record n.entry { count = 0 } })
  modify p (λ n. record n { entry = record n.entry { data_used = 0 } })
  modify p (λ n. record n { next = null })
  strcpy_addr p []
  puts (λ s. record s { tail = p })
  puts (λ s. record s { hooked = true })
  puts (λ s. record s { listed = a.proc_created })
  if a.proc_created then pure (pos 0) else pure enomem

-- `cleanup_packet` in two parts: the hook is still registered between them.
unfoldable pub release_list : ℕ → Cmd (Unit {0})
release_list fuel = do
  puts (λ s. record s { listed = false })
  p ← gets (λ s. s.root)
  free fuel p
  puts (λ s. record s { cache = false })

unfoldable pub cleanup_packet : ℕ → Cmd (Unit {0})
cleanup_packet fuel = do release_list fuel; puts (λ s. record s { hooked = false })
