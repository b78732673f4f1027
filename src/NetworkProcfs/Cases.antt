-- ===== src/NetworkProcfs/Cases.antt =====
-- A kernel, packets and states of network_procfs.c for concrete runs.
use kernel_modules_playgroun.Prelude.{
  ℕ, ◌/◌, ◌%◌, ◌≡◌, refl, true, false, Option, none, some, [], ◌∷◌, ◌++◌, ◌==◌, if◌then◌else◌,
  arith,
}
use kernel_modules_playgroun.Prelude.Bytes.{Text, text}
use kernel_modules_playgroun.Simacc.Driver.{decimal}
use kernel_modules_playgroun.NetworkProcfs.Machine.{
  Ptr, null, Entry, node, Net, Cells, Block, SkBuff, Kernel, Iphdr,
}
use kernel_modules_playgroun.NetworkProcfs.Driver.{Answers}
use kernel_modules_playgroun.NetworkProcfs.Linked.{Chain, IsNet}
use kernel_modules_playgroun.NetworkProcfs.Loading.{root_entry}

-- The kernel's part: the header that a packet holds, and the dotted form of its source.
abbrev pub network_header : Option SkBuff → Option Iphdr
network_header none = none
network_header (some p) = some (record { saddr = p.header })

abbrev pub header_of : SkBuff → Iphdr
header_of p = record { saddr = p.header }

abbrev pub dotted : ℕ → Text
dotted n =
    decimal (n / 16777216)
    ++ text "."
    ++ decimal (n / 65536 % 256)
    ++ text "."
    ++ decimal (n / 256 % 256)
    ++ text "."
    ++ decimal (n % 256)

pub reads : (p : SkBuff) → network_header (some p) ≡ some (header_of p)
reads p = refl

abbrev pub kernel : Kernel
kernel = record {
  skb_network_header = network_header;
  pi4 = dotted;
  header_of = header_of;
  reads = reads;
}

abbrev local_entry : Entry
local_entry = record { addr = text "127.0.0.1"; count = 2; data_used = 2048 }

abbrev pub local_chain : Chain
local_chain = (100, root_entry) ∷ (200, local_entry) ∷ []

abbrev local_cells : Cells
local_cells a =
    if a == 100
    then some (node root_entry 200)
    else (if a == 200 then some (node local_entry null) else none)

-- The module with one source in its list.
abbrev pub local_net : Net
local_net = record {
  cells = local_cells;
  root = 100;
  tail = 200;
  locked = false;
  cache = true;
  hooked = true;
  listed = true;
  sock_buff = none;
  ip_header = none;
}

pub local_net-IsNet : IsNet local_net local_chain
local_net-IsNet = record {
  list = record {
    chain =
        ((λ e. absurd (omega arith)), refl, refl, ((λ e. absurd (omega arith)), refl, refl, tt));
    nonempty = λ c. cc;
    first = refl;
    final = refl;
  };
  unlocked = refl;
  cached = refl;
}

abbrev pub block : Ptr → Block
block a = record { address = a; junk = node root_entry 77 }

abbrev pub local_packet : SkBuff
local_packet = record { header = 2130706433; data_len = 512 }

abbrev pub remote_packet : SkBuff
remote_packet = record { header = 3232235777; data_len = 1500 }

abbrev pub unloaded_net : Net
unloaded_net = record {
  cells = λ a. none;
  root = null;
  tail = null;
  locked = false;
  cache = false;
  hooked = false;
  listed = false;
  sock_buff = none;
  ip_header = none;
}

abbrev pub granted : Answers
granted = record { cache_created = true; root_block = block 100; proc_created = true }

abbrev pub refused : Answers
refused = record { cache_created = true; root_block = block 100; proc_created = false }
