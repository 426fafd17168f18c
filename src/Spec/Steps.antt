-- ===== src/Spec/Steps.antt =====
-- The steps that the hooks of sock_events.c take in the state of the tracer.
use tcpsnitch.Base.{ℕ, suc, ◌≡◌, ◌≢◌, ℤ, pos, minus_one, none, some, List}
use tcpsnitch.Bytes.{Text}
use tcpsnitch.Event.{
  SockEventType, socket, close, SockInfo, SockEvent, Socket, close_event, socket_event,
}
use tcpsnitch.Kernel.{Kernel}
use tcpsnitch.Tracer.{Plan}
use tcpsnitch.Tracer.Handlers.{plan, keep}
use tcpsnitch.Spec.{Setting, Abs, put, with_socket, put-same}
use tcpsnitch.Spec.Start.{IsEvent, IsNew}
use tcpsnitch.Spec.Handler.{Handled, handled, Duplicated}
use tcpsnitch.Spec.Dump.{Written}
use tcpsnitch.Spec.Effects.{Effect, logs, dups, opens, closes}

-- The lines once a socket that `fd` still had, if any, is written out.
pub data Cleared (k : Kernel) (u : Setting) (fd : ℕ) (a : Abs)
    : List (Text × SockEvent) → Type 0 where
  fresh : a.table fd ≡ none → Cleared k u fd a a.lines
  replaced :
      {s t : Socket} {after : List (Text × SockEvent)}
      → a.table fd ≡ some s
      → Written k u.dir s a.lines after t
      → Cleared k u fd a after

pub data Step (k : Kernel) (u : Setting) : Effect → Abs → Abs → Type 0 where
  logged :
      {type : SockEventType} {fd : ℕ} {ret err : ℤ} {p : Plan} {a b : Abs}
      → Handled k u type fd ret err p a b
      → Step k u (logs type fd ret err p) a b
  not_duped :
      {type : SockEventType} {fd : ℕ} {err : ℤ} {p : Plan} {a b : Abs}
      → Handled k u type fd minus_one err p a b
      → Step k u (dups type fd minus_one err p) a b
  duped :
      {type : SockEventType} {fd r : ℕ} {err : ℤ} {p : Plan} {a b : Abs}
      → fd ≢ r
      → Duplicated k u type fd r err p a b
      → Step k u (dups type fd (pos r) err p) a b
  opened :
      {fd : ℕ} {info : SockInfo} {a : Abs} {s : Socket} {after : List (Text × SockEvent)}
      → Cleared k u fd a after
      → (new : IsNew socket a.count fd s) → s.sock_info ≡ info
      → IsEvent socket (pos fd) (pos 0) 0 (socket_event info) new.first
      → Step k u
          (opens fd info)
          a
          (record { table = put fd (some s) a.table; count = suc a.count; lines = after })
  closed :
      {fd : ℕ} {ret err : ℤ} {a b : Abs} {s t : Socket} {after : List (Text × SockEvent)}
      → Handled k u close fd ret err (plan close_event keep) a b
      → b.table fd ≡ some s
      → Written k u.dir s b.lines after t
      → Step k u (closes fd ret err) a (record (with_socket fd none b) { lines = after })

pub Handled-table :
    {k : Kernel} {u : Setting} {type : SockEventType} {fd : ℕ} {ret err : ℤ} {p : Plan} {a b : Abs}
    → Handled k u type fd ret err p a b
    → (s : Socket) × (b.table fd ≡ some s)
Handled-table {fd = fd} (handled {t = t} {b = b} _ _ _) = (t, put-same fd (some t) b.table)
