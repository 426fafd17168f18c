-- ===== src/Examples/Sessions.antt =====
-- A series of calls with an option and a vector of buffers, and the objects that its events are made.
use tcpsnitch.Base.{refl, ℕ, pos, List, [], ◌∷◌, arith}
use tcpsnitch.Bytes.{Text}
use tcpsnitch.Kernel.{Kernel}
use tcpsnitch.Outcome.{Returns}
use tcpsnitch.World.{first_world}
use tcpsnitch.Spec.Calls.{Call, on_socket, on_setsockopt, on_writev, on_dup, on_close}
use tcpsnitch.Spec.Runs.{run_all, AllLegal}
use tcpsnitch.Spec.Typed.{AllRegular}
use tcpsnitch.Tracer.Dump.{cleanup}
use tcpsnitch.Spec.Actions.{Action, hooked, dumper_round, act_all, AllFair}
use tcpsnitch.Spec.Ended.{IsOver, session-IsOver}
use tcpsnitch.Spec.Told.{Told, session-Told}
use tcpsnitch.Examples.Setting.{host, host-IsSane, host-Serialises}
use tcpsnitch.Examples.Objects.{lists, lists-IsJansson, names}

-- SO_LINGER with a `struct linger` that is on for 5 seconds.
abbrev linger : Text
linger = 1 ∷ 0 ∷ 0 ∷ 0 ∷ 5 ∷ 0 ∷ 0 ∷ 0 ∷ []

abbrev buffers : List ℕ
buffers = 100 ∷ 200 ∷ 300 ∷ []

abbrev calls : List (Kernel × Call)
calls =
    (host, on_socket 4 2 1 6)
    ∷ (host, on_setsockopt 4 (pos 0) (pos 0) 1 13 linger 8)
    ∷ (host, on_writev 4 (pos 300) (pos 0) buffers (pos 2))
    ∷ (host, on_dup 4 (pos 5) (pos 0))
    ∷ (host, on_close 4 (pos 0) (pos 0))
    ∷ []

calls-AllLegal : AllLegal calls
calls-AllLegal = (
  (host-IsSane, host-Serialises, tt),
  (
    (host-IsSane, host-Serialises, omega arith),
    (
      (host-IsSane, host-Serialises, omega arith),
      ((host-IsSane, host-Serialises, λ e. omega arith), ((host-IsSane, host-Serialises, tt), tt)),
    ),
  ),
)

calls-AllRegular : AllRegular calls
calls-AllRegular = (tt, (omega arith, (tt, (tt, (tt, tt)))))

session-Told_example : Returns (Told lists names) (run_all calls first_world)
session-Told_example =
    session-Told lists lists-IsJansson names calls calls-AllLegal calls-AllRegular

-- The dumper thread runs between the calls, and the socket 5 is still open at the end.
abbrev actions : List (Kernel × Action)
actions =
    (host, hooked (on_socket 4 2 1 6))
    ∷ (host, dumper_round)
    ∷ (host, hooked (on_writev 4 (pos 300) (pos 0) buffers (pos 2)))
    ∷ (host, hooked (on_dup 4 (pos 5) (pos 0)))
    ∷ (host, dumper_round)
    ∷ (host, hooked (on_close 4 (pos 0) (pos 0)))
    ∷ []

actions-AllFair : AllFair actions
actions-AllFair = (
  (host-IsSane, host-Serialises, tt, tt),
  (
    host-Serialises,
    (
      (host-IsSane, host-Serialises, omega arith, tt),
      (
        (host-IsSane, host-Serialises, λ e. omega arith, tt),
        (host-Serialises, ((host-IsSane, host-Serialises, tt, tt), tt)),
      ),
    ),
  ),
)

session-IsOver_example :
    Returns
      (λ w. Returns (λ (_, v). IsOver lists names w v) (cleanup host w))
      (act_all actions first_world)
session-IsOver_example =
    session-IsOver lists lists-IsJansson names actions actions-AllFair host host-Serialises
      (λ path. refl)
