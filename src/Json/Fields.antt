-- ===== src/Json/Fields.antt =====
-- json_builder.c: the fields that every event has, and the prelude of the functions for events.
use tcpsnitch.Base.{
  ℕ, to_ulong, ℤ, pos, Bool, true, false, Option, some, List, [], ◌∷◌, ◌++◌, String, to_long,
  if◌then◌else◌,
}
use tcpsnitch.Bytes.{has_flag}
use tcpsnitch.Event
use tcpsnitch.Event.{SockEventType, SockEvent}
use tcpsnitch.Constants.{alloc_errno_str}
use tcpsnitch.Json.{Jansson, Names, add_all, text, literal, number, truth, nested, object_of}

-- The array of names in the order of the types (sock_events.c).
unfoldable pub string_from_sock_event_type : SockEventType → String
string_from_sock_event_type Event.socket = "socket"
string_from_sock_event_type Event.forked_socket = "forked_socket"
string_from_sock_event_type Event.ghost_socket = "ghost_socket"
string_from_sock_event_type Event.bind = "bind"
string_from_sock_event_type Event.connect = "connect"
string_from_sock_event_type Event.shutdown = "shutdown"
string_from_sock_event_type Event.listen = "listen"
string_from_sock_event_type Event.accept = "accept"
string_from_sock_event_type Event.accept4 = "accept4"
string_from_sock_event_type Event.getsockopt = "getsockopt"
string_from_sock_event_type Event.setsockopt = "setsockopt"
string_from_sock_event_type Event.send = "send"
string_from_sock_event_type Event.recv = "recv"
string_from_sock_event_type Event.sendto = "sendto"
string_from_sock_event_type Event.recvfrom = "recvfrom"
string_from_sock_event_type Event.sendmsg = "sendmsg"
string_from_sock_event_type Event.recvmsg = "recvmsg"
string_from_sock_event_type Event.sendmmsg = "sendmmsg"
string_from_sock_event_type Event.recvmmsg = "recvmmsg"
string_from_sock_event_type Event.getsockname = "getsockname"
string_from_sock_event_type Event.getpeername = "getpeername"
string_from_sock_event_type Event.sockatmark = "sockatmark"
string_from_sock_event_type Event.isfdtype = "isfdtype"
string_from_sock_event_type Event.write = "write"
string_from_sock_event_type Event.read = "read"
string_from_sock_event_type Event.close = "close"
string_from_sock_event_type Event.dup = "dup"
string_from_sock_event_type Event.dup2 = "dup2"
string_from_sock_event_type Event.dup3 = "dup3"
string_from_sock_event_type Event.writev = "writev"
string_from_sock_event_type Event.readv = "readv"
string_from_sock_event_type Event.ioctl = "ioctl"
string_from_sock_event_type Event.sendfile = "sendfile"
string_from_sock_event_type Event.poll = "poll"
string_from_sock_event_type Event.ppoll = "ppoll"
string_from_sock_event_type Event.select = "select"
string_from_sock_event_type Event.pselect = "pselect"
string_from_sock_event_type Event.fcntl = "fcntl"
string_from_sock_event_type Event.epoll_ctl = "epoll_ctl"
string_from_sock_event_type Event.epoll_wait = "epoll_wait"
string_from_sock_event_type Event.epoll_pwait = "epoll_pwait"
string_from_sock_event_type Event.fdopen = "fdopen"
string_from_sock_event_type Event.tcp_info = "tcp_info"

-- Numbers of Linux for O_CLOEXEC, O_APPEND, O_ASYNC, O_DIRECT, O_NOATIME and O_NONBLOCK. The flags are
-- an `int` that can be negative.
abbrev fd_flag : ℤ → ℕ → Bool
fd_flag flags mask = has_flag (to_ulong flags) mask

module _ (j : Jansson) where
  unfoldable pub add_fd_flags : ℤ → List (String × Option j.Json)
  add_fd_flags flags = ("O_CLOEXEC", truth j (fd_flag flags 0o2000000)) ∷ []

  unfoldable pub add_fl_flags : ℤ → List (String × Option j.Json)
  add_fl_flags flags =
      ("O_APPEND", truth j (fd_flag flags 0o2000))
      ∷ ("O_ASYNC", truth j (fd_flag flags 0o20000))
      ∷ ("O_DIRECT", truth j (fd_flag flags 0o40000))
      ∷ ("O_NOATIME", truth j (fd_flag flags 0o1000000))
      ∷ ("O_NONBLOCK", truth j (fd_flag flags 0o4000))
      ∷ []

  module _ (names : Names) where
    unfoldable pub build_shared_fields : SockEvent → List (String × Option j.Json)
    unfolding string_from_sock_event_type
    build_shared_fields ev =
        ("type", literal j (string_from_sock_event_type ev.type))
        ∷ ("timestamp_usec", number j (to_long ev.timestamp_usec))
        ∷ ("return_value", number j ev.return_value)
        ∷ ("success", truth j ev.success)
        ∷ (errno_entry ev.success
            ++ ("thread_id", number j (pos ev.thread_id)) ∷ ("fake_call", truth j false) ∷ [])
      where
        errno_entry : Bool → List (String × Option j.Json)
        errno_entry success =
            if success
            then []
            else ("errno", text j (some (alloc_errno_str names.headers ev.err))) ∷ []

    -- An event with the entries of its details, which are filled in through the reference that the
    -- event's object keeps to them.
    unfoldable pub prelude :
        SockEvent → List (String × Option j.Json) → List (String × Option j.Json)
    unfolding build_shared_fields add_all
    prelude ev details = build_shared_fields ev ++ ("details", nested j (object_of j details)) ∷ []

    unfoldable pub real_call : SockEvent → List (String × Option j.Json) → j.Object
    unfolding prelude add_all
    real_call ev details = object_of j (prelude ev details)

    -- The field `fake_call`, which the prelude has set to false, is set again.
    unfoldable pub fake_call : SockEvent → List (String × Option j.Json) → j.Object
    unfolding prelude add_all
    fake_call ev details = object_of j (prelude ev details ++ ("fake_call", truth j true) ∷ [])
