-- ===== src/Spec/Told.antt =====
-- What a series of calls has written (sock_events.c), as the objects that json_builder.c makes of it.
use tcpsnitch.Base.{ℕ, ◌≡◌, some, List, [], ◌∷◌}
use tcpsnitch.Outcome.{Returns, Returns-mono}
use tcpsnitch.Bytes.{Text}
use tcpsnitch.Event.{SockEvent, Socket}
use tcpsnitch.Kernel.{Kernel}
use tcpsnitch.World.{World, first_world}
use tcpsnitch.Json.{Jansson, IsJansson, Names}
use tcpsnitch.Json.Build.{build_sock_ev}
use tcpsnitch.Json.Reported.{Reported}
use tcpsnitch.Json.Total.{build_sock_ev-Reported}
use tcpsnitch.Spec.{Abs, Shows}
use tcpsnitch.Spec.Calls.{Call}
use tcpsnitch.Spec.Runs.{run_all, AllLegal}
use tcpsnitch.Spec.Typed.{
  IsTyped, AllTyped, no_events, and_event, LinesTyped, no_lines, and_line, AllRegular,
  session-Typed,
}

module _ (j : Jansson) (names : Names) where
  -- An event is made an object without a fault, and this object tells it.
  abbrev pub IsTold : SockEvent → Type 0
  IsTold ev = Returns (Reported j names ev) (build_sock_ev j names ev)

  pub data AllTold : List SockEvent → Type 0 where
    no_event_told : AllTold []
    event_told :
        {ev : SockEvent} {evs : List SockEvent} → IsTold ev → AllTold evs → AllTold (ev ∷ evs)

  pub data LinesTold : List (Text × SockEvent) → Type 0 where
    no_line_told : LinesTold []
    line_told :
        {path : Text} {ev : SockEvent} {lines : List (Text × SockEvent)}
        → IsTold ev
        → LinesTold lines
        → LinesTold ((path, ev) ∷ lines)

  -- The events that have been written, and those that wait in sockets to be.
  pub record Told (v : World) : Type 0 where
    pub written : LinesTold v.trace
    pub state : Abs
    pub shown : Shows state v
    pub waiting : (fd : ℕ) (s : Socket) → state.table fd ≡ some s → AllTold s.events

module _ (j : Jansson) (laws : IsJansson j) (names : Names) where
  IsTyped-IsTold : (ev : SockEvent) → IsTyped ev → IsTold j names ev
  IsTyped-IsTold ev (same, fits) = build_sock_ev-Reported j laws names ev same fits

  AllTyped-AllTold : {evs : List SockEvent} → AllTyped evs → AllTold j names evs
  AllTyped-AllTold no_events = no_event_told
  AllTyped-AllTold (and_event {ev} h p) = event_told (IsTyped-IsTold ev h) (AllTyped-AllTold p)

  pub LinesTyped-LinesTold :
      {lines : List (Text × SockEvent)} → LinesTyped lines → LinesTold j names lines
  LinesTyped-LinesTold no_lines = no_line_told
  LinesTyped-LinesTold (and_line {ev = ev} h p) =
      line_told (IsTyped-IsTold ev h) (LinesTyped-LinesTold p)

  -- After every series of legal and regular calls (an option's value has the bytes of the type that its
  -- name stands for, an operation of `epoll_ctl` is one of the three), from the start of the program,
  -- each event that has been written as a line, and each that waits in a socket, is made a JSON object
  -- without a fault, from which a reader gets the event's shared fields, its bytes and its TCP measures;
  -- where the surroundings are sane and `json_dumps` makes a text of every event.
  pub session-Told :
      (cs : List (Kernel × Call))
      → AllLegal cs
      → AllRegular cs
      → Returns (Told j names) (run_all cs first_world)
  session-Told cs legal regular =
      Returns-mono (session-Typed cs legal regular) λ v (lines, (b, shows, t)). record {
        written = LinesTyped-LinesTold lines;
        state = b;
        shown = shows;
        waiting = λ fd s e. AllTyped-AllTold (t.waiting fd s e);
      }
