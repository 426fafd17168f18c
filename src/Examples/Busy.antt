-- ===== src/Examples/Busy.antt =====
-- The sweep over the table of sockets, at a table with a socket that has two events.
use tcpsnitch.Base.{ℕ, zero, suc, ◌≡◌, refl, pos, false, true, Option, none, some, [], ◌∷◌, ◌++◌}
use tcpsnitch.Outcome.{Returns}
use tcpsnitch.Bytes.{Text}
use tcpsnitch.Text.{codes, decimal}
use tcpsnitch.Text.Paths.{alloc_concat_path-some}
use tcpsnitch.Event.{Socket, blank_info}
use tcpsnitch.Registry.{Registry, unlocked}
use tcpsnitch.Registry.View.{peek, mutex_at, Idle}
use tcpsnitch.World.{World, first_world}
use tcpsnitch.Tracer.Dump.{dump_all_sock_events}
use tcpsnitch.Spec.{Abs, Shows}
use tcpsnitch.Spec.Dump.{opens}
use tcpsnitch.Spec.Sweep.{Swept, IsBound, dump_all-Swept}
use tcpsnitch.Spec.Drain.{Drained, dump_all-Drained}
use tcpsnitch.Examples.Setting.{host, host-Serialises, some_event}

abbrev pub busy_socket : Socket
busy_socket = record {
  events = some_event ∷ some_event ∷ [];
  id = 0;
  fd = 1;
  sock_info = blank_info;
  events_count = 2;
  bytes_sent = 20;
  bytes_received = 0;
  last_info_dump_micros = pos 0;
  last_info_dump_bytes = pos 0;
  bound = false;
  bound_addr = [];
  rtt = pos 0;
  capture_switch = none;
}

abbrev pub busy_table : Registry Socket
busy_table = record {
  rwlock = unlocked;
  array = some (none ∷ some (record { elem = busy_socket; mutex = false }) ∷ []);
  size = 2;
}

abbrev pub traces : Option Text
traces = some (codes "/t/nc_000")

abbrev pub busy : World
busy = record first_world {
  registry = busy_table;
  connections_count = 1;
  initialized = true;
  logs_dir_path = traces;
}

abbrev pub busy_state : Abs
busy_state = record { table = peek busy_table; count = 1; lines = [] }

pub busy-Idle : Idle busy_table
unfolding mutex_at
busy-Idle = record { free = refl; shape = refl; mutexes = free_at }
  where
    free_at : (j : ℕ) → mutex_at busy_table j ≡ false
    free_at zero = refl
    free_at (suc zero) = refl
    free_at (suc (suc n)) = refl

busy-Shows : Shows busy_state busy
busy-Shows = record {
  idle = busy-Idle;
  table = λ j. refl;
  count = refl;
  lines = refl;
  alive = refl;
}

can_open : (id : ℕ) → opens host traces id ≡ true
unfolding opens
can_open id =
    rw (alloc_concat_path-some (codes "/t/nc_000") (decimal id ++ codes ".json"), opens) refl

dump_all-Drained_example :
    Returns
      (λ (_, v). (b : Abs) × Shows b v × Drained traces busy_state b)
      (dump_all_sock_events host busy)
dump_all-Drained_example = dump_all-Drained host host-Serialises busy-Shows can_open

dump_all-Swept_example :
    Returns
      (λ (_, v).
        (n : ℕ) × (b : Abs) × Swept host traces n 0 busy_state b
        × Shows b v
        × IsBound busy_state.table n)
      (dump_all_sock_events host busy)
dump_all-Swept_example = dump_all-Swept host host-Serialises busy-Shows
