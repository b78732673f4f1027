-- ===== src/NetworkProcfs/Runs.antt =====
-- Concrete runs of network_procfs.c, one event after the other and on two processors.
use kernel_modules_playgroun.Prelude.{
  ◌+◌, length, ◌≡◌, refl, true, false, none, some, [], ◌∷◌, ◌==◌, if◌then◌else◌, arith,
}
use kernel_modules_playgroun.NetworkProcfs.Machine.{null, node, Net, done, spinning}
use kernel_modules_playgroun.NetworkProcfs.Linked.{IsNet}
use kernel_modules_playgroun.NetworkProcfs.Traffic.{source_of}
use kernel_modules_playgroun.NetworkProcfs.Events.{
  Event, received, written, handle, Reaches, start, Consistent, Reaches-Consistent, handle-Reaches,
}
use kernel_modules_playgroun.Prelude.Bytes.{text}
use kernel_modules_playgroun.NetworkProcfs.Processors
use kernel_modules_playgroun.NetworkProcfs.Processors.{
  Buffer, System, idle, stored, enter, look, print as print_source, account as account_source,
}
use kernel_modules_playgroun.NetworkProcfs.Sharing.{
  KnownAll, Reaches-accounted, Reaches-lost, Reaches-stale,
}
use kernel_modules_playgroun.NetworkProcfs.Loading.{root_entry}
use kernel_modules_playgroun.NetworkProcfs.Cases.{kernel, block, local_packet, remote_packet}

-- As `init_packet` leaves it.
abbrev loaded_net : Net
loaded_net = record {
  cells = λ a. if a == 100 then some (node root_entry null) else none;
  root = 100;
  tail = 100;
  locked = false;
  cache = true;
  hooked = true;
  listed = true;
  sock_buff = none;
  ip_header = none;
}

loaded_net-IsNet : IsNet loaded_net ((100, root_entry) ∷ [])
loaded_net-IsNet = record {
  list = record {
    chain = ((λ e. absurd (omega arith)), refl, refl, tt);
    nonempty = λ c. cc;
    first = refl;
    final = refl;
  };
  unlocked = refl;
  cached = refl;
}

abbrev first_packet : Event
first_packet = received (block 200, remote_packet)

-- The state behind the first packet.
behind_packet :
    (v : Net) × (handle kernel 3 first_packet loaded_net ≡ done tt v)
    × Reaches kernel loaded_net (first_packet ∷ []) v
behind_packet =
    let (v, ends, reached, _) =
      handle-Reaches kernel loaded_net 100 [] loaded_net first_packet (block 200, remote_packet) 3
        loaded_net-IsNet start ((λ e. absurd (omega arith)), refl) (omega arith) in
    (v, ends, reached)

Reaches-Consistent_example : Consistent kernel (first_packet ∷ []) behind_packet.0
Reaches-Consistent_example =
    Reaches-Consistent kernel loaded_net 100 (first_packet ∷ []) behind_packet.0 loaded_net-IsNet
      behind_packet.2

handle-Reaches_example :
    (v : Net) × (handle kernel 4 (written 5) behind_packet.0 ≡ done tt v)
    × Reaches kernel loaded_net (written 5 ∷ first_packet ∷ []) v
    × (handle kernel 4
          (received (block 102, local_packet))
          (record behind_packet.0 { locked = true })
        ≡ spinning)
handle-Reaches_example =
    handle-Reaches kernel loaded_net 100 (first_packet ∷ []) behind_packet.0 (written 5)
      (block 102, local_packet) 4 loaded_net-IsNet behind_packet.2 tt (omega arith)

-- A packet that has gone through the hook while another has come in on the other processor.
abbrev local_buffer : Buffer
local_buffer = record { index = 0; packet = local_packet }

abbrev remote_buffer : Buffer
remote_buffer = record { index = 1; packet = remote_packet }

abbrev one_done : System
one_done = record {
  globals = record {
    sock_buff = some remote_buffer;
    ip_header = some local_buffer;
    accounted = (source_of kernel local_packet, 1500) ∷ [];
    count = 2;
    stale = false;
  };
  first = idle;
  second = stored 1;
}

one_done-Reaches : Processors.Reaches kernel (remote_packet ∷ local_packet ∷ []) one_done
one_done-Reaches =
    let looked =
      Processors.on_first (Processors.on_first Processors.start (enter local_packet))
        (look 0 local_buffer refl refl) in
    let printed = Processors.on_first looked (print_source 0 local_buffer refl refl) in
    Processors.on_first (Processors.on_second printed (enter remote_packet))
      (account_source 0 (source_of kernel local_packet) remote_buffer refl refl)

Reaches-accounted_example :
    KnownAll kernel ((source_of kernel local_packet, 1500) ∷ []) (remote_packet ∷ local_packet ∷ [])
    × (1 + 0 + 1 ≡ length (remote_packet ∷ local_packet ∷ []))
Reaches-accounted_example =
    Reaches-accounted kernel (remote_packet ∷ local_packet ∷ []) one_done one_done-Reaches refl

Reaches-lost_example :
    (s : System) × Processors.Reaches kernel (remote_packet ∷ local_packet ∷ []) s
    × (s.first ≡ idle)
    × (s.second ≡ idle)
    × (s.globals.accounted
        ≡ (source_of kernel remote_packet, 1500) ∷ (source_of kernel remote_packet, 1500) ∷ [])
    × (s.globals.stale ≡ false)
Reaches-lost_example = Reaches-lost kernel local_packet remote_packet

Reaches-stale_test :
    (s : System) × Processors.Reaches kernel (remote_packet ∷ local_packet ∷ []) s
    × (s.first ≡ idle)
    × (s.second ≡ idle)
    × (s.globals.accounted ≡ (text "x", 7) ∷ (source_of kernel remote_packet, 1500) ∷ [])
Reaches-stale_test = Reaches-stale kernel local_packet remote_packet (text "x") 7
