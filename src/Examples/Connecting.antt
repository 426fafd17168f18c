-- ===== src/Examples/Connecting.antt =====
-- `connect` with captures asked for, on a socket that is known and on one that is not.
use tcpsnitch.Base.{
  ℕ, ◌+◌, ◌<◌, ◌≡◌, ◌≢◌, false, refl, pos, true, some, [], ◌∷◌, arith, if◌then◌else◌, ltb,
}
use tcpsnitch.Outcome.{Returns, done, fault, bad_unlock}
use tcpsnitch.Bytes.{Text}
use tcpsnitch.Text.{codes}
use tcpsnitch.CLib.{is_inet_socket}
use tcpsnitch.Registry.View.{peek}
use tcpsnitch.World.{World, first_world}
use tcpsnitch.Capture.Start.{Sniffer, bound, in_use}
use tcpsnitch.Overrides.{answer}
use tcpsnitch.Overrides.Connect.{connect_override}
use tcpsnitch.Tracer.Capture.{force_bind, min_port}
use tcpsnitch.Tracer.Ports.{tried, bind_result, with_binds, force_bind-first}
use tcpsnitch.Spec.{setting_of, Abs, Shows}
use tcpsnitch.Spec.Calls.{on_connect}
use tcpsnitch.Spec.Observed.{Observed, at_fd}
use tcpsnitch.Spec.Connect.{Captured, connect-Observed, connect-unknown}
use tcpsnitch.Spec.Runs.{nothing, first-Shows}
use tcpsnitch.Examples.Setting.{host, host-IsSane, host-Serialises}
use tcpsnitch.Examples.Busy.{busy, busy_state, busy_socket, busy_table, busy-Idle}

-- Two ports are taken.
abbrev sniffer : Sniffer
sniffer = record {
  orig_bind = λ fd ipv6 port. if ltb port 32770 then in_use else bound;
  inet_ntop = λ family addr. some (codes "10.0.0.1");
  pcap_open_live = true;
  pcap_compile = λ filter. true;
  pcap_setfilter = true;
  pcap_setnonblock = true;
  pcap_dump_open = λ path. true;
}

-- 10.0.0.1, port 80
abbrev server : Text
server = 2 ∷ 0 ∷ 0 ∷ 80 ∷ 10 ∷ 0 ∷ 0 ∷ 1 ∷ 0 ∷ 0 ∷ 0 ∷ 0 ∷ 0 ∷ 0 ∷ 0 ∷ 0 ∷ []

abbrev capturing : World → World
capturing w = record w { options = record w.options { opt_c = pos 1 } }

capturing-Shows : Shows busy_state (capturing busy)
capturing-Shows = record {
  idle = busy-Idle;
  table = λ j. refl;
  count = refl;
  lines = refl;
  alive = refl;
}

fresh-Shows : Shows nothing (capturing first_world)
fresh-Shows = record {
  idle = first-Shows.idle;
  table = first-Shows.table;
  count = refl;
  lines = refl;
  alive = refl;
}

busy_at : peek busy_table 1 ≡ some busy_socket
unfolding peek
busy_at = refl

connect-Observed_example :
    Returns
      (λ (x, v).
        (x ≡ answer (pos 0) (pos 0))
        × ((b c : Abs) × Captured (pos 1) busy_state b
            × Observed host
                (setting_of true v)
                (at_fd (pos 1) (λ d. on_connect d (pos 0) (pos 0) server 16))
                b
                c
            × Shows c v))
      (connect_override sniffer host (pos 1) server 16 (pos 0) (pos 0) host (capturing busy))
connect-Observed_example =
    connect-Observed host host host-IsSane host-Serialises sniffer (pos 1) server 16 (pos 0) (pos 0)
      (λ d e. record { given = omega arith; fits = omega arith }) (busy_socket, busy_at)
      capturing-Shows

connect-unknown_example :
    connect_override sniffer host (pos 4) server 16 (pos 0) (pos 0) host (capturing first_world)
    ≡ fault bad_unlock
unfolding is_inet_socket
connect-unknown_example =
    connect-unknown host host sniffer 4 server 16 (pos 0) (pos 0) refl refl fresh-Shows

taken : (i : ℕ) → i < 2 → sniffer.orig_bind 4 false (min_port + i) ≡ in_use
taken i h = ground arith

not_taken : sniffer.orig_bind 4 false (min_port + 2) ≢ in_use
not_taken e = cc

force_bind-first_example :
    force_bind sniffer 4 false host first_world
    ≡ done (
      bind_result (sniffer.orig_bind 4 false (min_port + 2)),
      with_binds first_world (tried 4 false 3 min_port),
    )
force_bind-first_example =
    force_bind-first host sniffer 4 false 2 first_world (omega arith) taken not_taken
