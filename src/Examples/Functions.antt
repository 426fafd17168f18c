-- ===== src/Examples/Functions.antt =====
-- The theorems about libc_overrides.c at concrete calls.
use tcpsnitch.Base.{true, ◌≡◌, pos, minus_one, ◌==◌, none, some, List, [], ◌∷◌, arith}
use tcpsnitch.Outcome.{Returns}
use tcpsnitch.World.{first_world}
use tcpsnitch.Overrides.{
  answer, override, PollFd, poll_override, EpollEvent, epoll_wait_override, count_of, FdSets,
  select_override,
}
use tcpsnitch.Spec.{setting_of, Abs, Shows}
use tcpsnitch.Spec.Calls.{run, on_send, on_select, on_epoll_wait}
use tcpsnitch.Spec.Runs.{nothing, first-Shows}
use tcpsnitch.Spec.Observed.{
  Observed, at_fd, poll_calls, epoll_calls, override-Observed, poll-Observed, epoll_wait-Observed,
}
use tcpsnitch.Spec.Selected.{select_calls, is_chosen, members, select-Observed}
use tcpsnitch.Examples.Setting.{host, host-IsSane, host-Serialises}

override-Observed_example :
    Returns
      (λ (x, v).
        (x ≡ answer (pos 10) (pos 0))
        × ((b : Abs) × Observed host
              (setting_of true v)
              (at_fd (pos 4) (λ d. on_send d (pos 10) (pos 0) 10 0))
              nothing
              b
            × Shows b v))
      (override
        (pos 4)
        (pos 10)
        (pos 0)
        (λ d. run (on_send d (pos 10) (pos 0) 10 0))
        host
        first_world)
override-Observed_example =
    override-Observed host host-IsSane host-Serialises (pos 4) (pos 10) (pos 0)
      (λ d. on_send d (pos 10) (pos 0) 10 0) (λ d e. tt) first-Shows

-- The second entry is one that `poll` ignores.
abbrev entries : List PollFd
entries =
    record { fd = pos 4; events = 1; revents = 1 }
    ∷ record { fd = minus_one; events = 1; revents = 0 }
    ∷ record { fd = pos 7; events = 4; revents = 0 }
    ∷ []

poll-Observed_example :
    Returns
      (λ (x, v).
        (x ≡ answer (pos 1) (pos 0))
        × ((b : Abs) × Observed host
              (setting_of true v)
              (poll_calls 3 entries (pos 1) (pos 0) (pos 500))
              nothing
              b
            × Shows b v))
      (poll_override entries 3 (pos 1) (pos 0) (pos 500) host first_world)
poll-Observed_example =
    poll-Observed host host-IsSane host-Serialises entries 3 (pos 1) (pos 0) (pos 500) (omega arith)
      first-Shows

abbrev returned : List EpollEvent
returned = record { fd = pos 4; events = 1 } ∷ record { fd = pos 5; events = 4 } ∷ []

epoll_wait-Observed_example :
    Returns
      (λ (x, v).
        (x ≡ answer (pos 2) (pos 0))
        × ((b : Abs) × Observed host
              (setting_of true v)
              (epoll_calls
                (count_of (pos 2))
                returned
                (λ d e. on_epoll_wait d (pos 2) (pos 0) (pos 100) e))
              nothing
              b
            × Shows b v))
      (epoll_wait_override returned (pos 100) (pos 2) (pos 0) host first_world)
epoll_wait-Observed_example =
    epoll_wait-Observed host host-IsSane host-Serialises returned (pos 100) (pos 2) (pos 0)
      (omega arith) first-Shows

-- The program waits until 4 can be read.
abbrev sets : FdSets
sets = record { readfds = some (λ d. d == 4); writefds = none; exceptfds = none }

select-Observed_example :
    Returns
      (λ (x, v).
        (x.value ≡ pos 1)
        × ((b : Abs) × Observed host
              (setting_of true v)
              (select_calls 5 0
                (is_chosen host first_world.options.opt_c sets)
                (λ d. on_select d (pos 1) (pos 0) (members sets d) (members sets d) none))
              nothing
              b
            × Shows b v))
      (select_override 5 sets sets none (pos 1) (pos 0) host first_world)
select-Observed_example =
    select-Observed host host-IsSane host-Serialises 5 sets sets none (pos 1) (pos 0) first-Shows
