-- ===== src/Examples/Runs.antt =====
-- The theorems about sock_events.c at concrete calls.
use tcpsnitch.Base.{not, ◌^◌, ◌<◌, ℕ, ◌≡◌, pos, true, false, some, List, [], ◌∷◌, ◌++◌, arith}
use tcpsnitch.Outcome.{done, Returns}
use tcpsnitch.Text.{codes}
use tcpsnitch.Event.{send, dup, Socket, send_event, dup_event, blank_info}
use tcpsnitch.Kernel.{Kernel}
use tcpsnitch.World.{World, first_world}
use tcpsnitch.Sockets.{dump_loop}
use tcpsnitch.Tracer.{ev_prelude, ev_handler, is_tcp_info}
use tcpsnitch.Tracer.Handlers.{plan, keep, add_sent}
use tcpsnitch.Registry.{Registry, unlocked}
use tcpsnitch.Registry.View.{peek, mutex_at, Idle}
use tcpsnitch.Spec.Heirs.{IsChild}
use tcpsnitch.Spec.Forked.{fork_override-IsChild}
use tcpsnitch.Overrides.{answer, fork_override}
use tcpsnitch.Base.{◌⊎◌, eqb_ℤ}
use tcpsnitch.Base.{none, refl, zero, suc, if◌then◌else◌, ◌==◌}
use tcpsnitch.Spec.{setting_of, Abs, Shows, ShowsHeld}
use tcpsnitch.Spec.Typed.{Typed, AllRegular}
use tcpsnitch.Spec.Hook.{Entered, ev_prelude-Entered}
use tcpsnitch.Spec.Handler.{Handled, Duplicated, ev_handler-Handled, ev_handler-Duplicated}
use tcpsnitch.Spec.Dump.{lines_of, dump_loop-all}
use tcpsnitch.Spec.Calls.{Call, on_socket, on_send, on_dup, on_close, run}
use tcpsnitch.Spec.Effects.{effect_of}
use tcpsnitch.Spec.Steps.{Step}
use tcpsnitch.Spec.Refine.{run-Step}
use tcpsnitch.Spec.Invariant.{IsGood}
use tcpsnitch.Spec.Runs.{run_all, AllLegal, PathOf, nothing, first-Shows}
use tcpsnitch.Spec.Sessions.{session-IsGood}
use tcpsnitch.Spec.Frame.{Extends, run_all-Extends}
use tcpsnitch.Examples.Setting.{host, host-IsSane, host-Serialises, some_event}

abbrev session : List (Kernel × Call)
session =
    (host, on_socket 4 2 1 6)
    ∷ (host, on_send 4 (pos 10) (pos 0) 10 0)
    ∷ (host, on_dup 4 (pos 5) (pos 0))
    ∷ (host, on_close 4 (pos 0) (pos 0))
    ∷ []

session-AllLegal : AllLegal session
session-AllLegal = (
  (host-IsSane, host-Serialises, tt),
  (
    (host-IsSane, host-Serialises, tt),
    ((host-IsSane, host-Serialises, λ e. omega arith), ((host-IsSane, host-Serialises, tt), tt)),
  ),
)

session-AllRegular : AllRegular session
session-AllRegular = (tt, (tt, (tt, (tt, tt))))

session-IsGood_example :
    Returns
      (λ v.
        (b : Abs) × PathOf (setting_of true v) session nothing b
        × Shows b v
        × IsGood b
        × Typed b
        × (b.count < 2 ^ 31))
      (run_all session first_world)
session-IsGood_example = session-IsGood session session-AllLegal session-AllRegular (omega arith)

run-Step_example :
    Returns
      (λ (_, v).
        (b : Abs) × Step host
          (setting_of true v)
          (effect_of (on_send 4 (pos 10) (pos 0) 10 0))
          nothing
          b
        × Shows b v)
      (run (on_send 4 (pos 10) (pos 0) 10 0) host first_world)
run-Step_example =
    run-Step host host-IsSane host-Serialises (on_send 4 (pos 10) (pos 0) 10 0) tt first-Shows

run_all-Extends_example :
    Returns (λ v. Extends first_world.trace v.trace) (run_all session first_world)
run_all-Extends_example = run_all-Extends session session-AllLegal first-Shows

ev_handler-Handled_example :
    Returns
      (λ (_, v).
        (b : Abs) × Handled host
          (setting_of (not (is_tcp_info send)) v)
          send
          4
          (pos 10)
          (pos 0)
          (plan (send_event 10 0) (add_sent 10))
          nothing
          b
        × Shows b v)
      (ev_handler send send false 4
        (pos 10)
        (pos 0)
        (done (plan (send_event 10 0) (add_sent 10)))
        host
        first_world)
ev_handler-Handled_example =
    ev_handler-Handled host host-IsSane send send 4 (pos 10) (pos 0)
      (plan (send_event 10 0) (add_sent 10)) first-Shows

ev_handler-Duplicated_example :
    Returns
      (λ (_, v).
        (b : Abs) × Duplicated host
          (setting_of (not (is_tcp_info dup)) v)
          dup
          4
          5
          (pos 0)
          (plan (dup_event blank_info) keep)
          nothing
          b
        × Shows b v)
      (ev_handler dup dup true 4
        (pos 5)
        (pos 0)
        (done (plan (dup_event blank_info) keep))
        host
        first_world)
ev_handler-Duplicated_example =
    ev_handler-Duplicated host host-IsSane dup dup 4 5 (pos 0) (plan (dup_event blank_info) keep)
      (λ e. omega arith) first-Shows

ev_prelude-Entered_example :
    Returns
      (λ (s, v). (b : Abs) × Entered 4 nothing s b × ShowsHeld 4 b v)
      (ev_prelude 4 host first_world)
ev_prelude-Entered_example = ev_prelude-Entered host host-IsSane 4 first-Shows

dump_loop-all_example :
    dump_loop host (codes "/t/0.json") false (some_event ∷ some_event ∷ []) []
    ≡ done (true, [] ++ lines_of (codes "/t/0.json") (some_event ∷ some_event ∷ []))
dump_loop-all_example =
    dump_loop-all host host-Serialises (codes "/t/0.json") false (some_event ∷ some_event ∷ []) []

abbrev some_socket : Socket
some_socket = record {
  events = some_event ∷ [];
  id = 0;
  fd = 0;
  sock_info = blank_info;
  events_count = 1;
  bytes_sent = 10;
  bytes_received = 0;
  last_info_dump_micros = pos 0;
  last_info_dump_bytes = pos 0;
  bound = false;
  bound_addr = [];
  rtt = pos 0;
  capture_switch = none;
}

abbrev one_socket : Registry Socket
one_socket = record {
  rwlock = unlocked;
  array = some (some (record { elem = some_socket; mutex = false }) ∷ []);
  size = 1;
}

one_socket-Idle : Idle one_socket
unfolding mutex_at
one_socket-Idle = record { free = refl; shape = refl; mutexes = free_at }
  where
    free_at : (j : ℕ) → mutex_at one_socket j ≡ false
    free_at zero = refl
    free_at (suc n) = refl

abbrev parent_state : Abs
parent_state = record {
  table = λ j. if j == 0 then some some_socket else none;
  count = 0;
  lines = [];
}

off : (n : ℕ) → none ≡ (if suc n == 0 then some some_socket else none)
off n = ground arith

-- A process that has one socket forks.
abbrev parent : World
parent = record first_world { initialized = true; registry = one_socket }

parent-Shows : Shows parent_state parent
unfolding peek mutex_at
parent-Shows = record {
  idle = one_socket-Idle;
  table = one_at;
  count = refl;
  lines = refl;
  alive = refl;
}
  where
    one_at : (j : ℕ) → peek one_socket j ≡ (if j == 0 then some some_socket else none)
    one_at zero = refl
    one_at (suc n) = off n

fork_override-IsChild_example :
    Returns
      (λ (x, v).
        (x ≡ answer (pos 0) (pos 0))
        × (((eqb_ℤ (pos 0) (pos 0) ≡ false) × (v ≡ parent))
            ⊎ ((eqb_ℤ (pos 0) (pos 0) ≡ true) × IsChild parent_state parent.trace v)))
      (fork_override (pos 0) (pos 0) host parent)
fork_override-IsChild_example = fork_override-IsChild host (pos 0) (pos 0) refl parent-Shows
