-- ===== src/NetworkProcfs/Processors.antt =====
-- `hook_func` of network_procfs.c on two processors at once: `sock_buff` and `ip_header` are
-- globals, and only the list is under a lock. A step is what a processor does between two accesses
-- of them. When a call has returned, the kernel is free to free its buffer.
use kernel_modules_playgroun.Prelude.{
  ℕ, suc, ◌≡◌, Bool, true, false, ◌==◌, ◌||◌, Option, none, some, List, [], ◌∷◌, ◌++◌, take, u32,
}
use kernel_modules_playgroun.Prelude.Bytes.{Text}
use kernel_modules_playgroun.NetworkProcfs.Machine.{SkBuff, Kernel}

-- A pointer to a buffer: which packet since loading it belongs to, and what the buffer holds.
pub record Buffer : Type 0 where
  pub index : ℕ
  pub packet : SkBuff

-- The two globals, of which `ip_header` points into a buffer; what has been given to
-- `add_to_list_network`, the latest first; how many packets have come in; and whether a buffer has
-- been read whose call had returned.
pub record Globals : Type 0 where
  pub sock_buff : Option Buffer
  pub ip_header : Option Buffer
  pub accounted : List (Text × ℕ)
  pub count : ℕ
  pub stale : Bool

-- Where a processor stands in `hook_func` with its packet: behind the assignment of `sock_buff`,
-- behind that of `ip_header`, or with its local `source` filled.
pub data Pc : Type 0 where
  idle : Pc
  stored looked : ℕ → Pc
  printed : ℕ → Text → Pc

-- Whether the call for a packet has not returned.
abbrev pub holds : Pc → ℕ → Bool
holds idle n = false
holds (stored mine) n = mine == n
holds (looked mine) n = mine == n
holds (printed mine source) n = mine == n

pub record System : Type 0 where
  pub globals : Globals
  pub first : Pc
  pub second : Pc

abbrev pub loaded : System
loaded = record {
  globals = record { sock_buff = none; ip_header = none; accounted = []; count = 0; stale = false };
  first = idle;
  second = idle;
}

module _ (kernel : Kernel) where
  open kernel use {header_of, pi4}

  -- A step with the packets that it takes in, while the other processor is at `other`. What is read
  -- from the buffer of a call that has returned may be anything.
  pub data Move (s : Globals) (other : Pc) : Pc → List SkBuff → Globals → Pc → Type 0 where
    enter :
        (p : SkBuff)
        → Move s other idle
            (p ∷ [])
            (record s {
              sock_buff = some (record { index = s.count; packet = p });
              count = suc s.count;
            })
            (stored s.count)
    look :
        (mine : ℕ) (b : Buffer)
        → s.sock_buff ≡ some b
        → (mine == b.index) || holds other b.index ≡ true
        → Move s other (stored mine) [] (record s { ip_header = some b }) (looked mine)
    look_stale :
        (mine : ℕ) (b any : Buffer)
        → s.sock_buff ≡ some b
        → (mine == b.index) || holds other b.index ≡ false
        → Move s other
            (stored mine)
            []
            (record s { ip_header = some any; stale = true })
            (looked mine)
    print :
        (mine : ℕ) (b : Buffer)
        → s.ip_header ≡ some b
        → (mine == b.index) || holds other b.index ≡ true
        → Move s other (looked mine) [] s (printed mine (take 15 (pi4 (header_of b.packet).saddr)))
    print_stale :
        (mine : ℕ) (b : Buffer) (any : Text)
        → s.ip_header ≡ some b
        → (mine == b.index) || holds other b.index ≡ false
        → Move s other (looked mine) [] (record s { stale = true }) (printed mine any)
    account :
        (mine : ℕ) (source : Text) (b : Buffer)
        → s.sock_buff ≡ some b
        → (mine == b.index) || holds other b.index ≡ true
        → Move s other
            (printed mine source)
            []
            (record s { accounted = (source, u32 b.packet.data_len) ∷ s.accounted })
            idle
    account_stale :
        (mine : ℕ) (source : Text) (b : Buffer) (any : ℕ)
        → s.sock_buff ≡ some b
        → (mine == b.index) || holds other b.index ≡ false
        → Move s other
            (printed mine source)
            []
            (record s { accounted = (source, any) ∷ s.accounted; stale = true })
            idle

  -- The packets that have been taken in, the latest first, and the state then.
  pub data Reaches : List SkBuff → System → Type 0 where
    start : Reaches [] loaded
    on_first :
        {taken new : List SkBuff} {s : System} {m : Globals} {c : Pc}
        → Reaches taken s
        → Move s.globals s.second s.first new m c
        → Reaches (new ++ taken) (record s { globals = m; first = c })
    on_second :
        {taken new : List SkBuff} {s : System} {m : Globals} {c : Pc}
        → Reaches taken s
        → Move s.globals s.first s.second new m c
        → Reaches (new ++ taken) (record s { globals = m; second = c })
