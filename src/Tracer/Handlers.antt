-- ===== src/Tracer/Handlers.antt =====
-- The hooks of sock_events.c, one for each intercepted call: what each records and how it changes
-- the socket. Arguments that a hook ignores are left out; a null pointer is `none`.
use tcpsnitch.Base.{
  ℕ, ◌+◌, ◌%◌, ◌^◌, ℤ, pos, minus_one, Bool, true, false, not, ◌||◌, Option, none, some, List,
  eqb_ℤ, ◌++◌, take, drop, if◌then◌else◌,
}
use tcpsnitch.Outcome.{Outcome, done, bind_outcome}
use tcpsnitch.Bytes.{Text}
use tcpsnitch.Event.{
  socket, bind, connect, shutdown, listen, accept, accept4, getsockopt, setsockopt, send, recv,
  sendto, recvfrom, sendmsg, recvmsg, sendmmsg, recvmmsg, getsockname, getpeername, SockInfo, Addr,
  Timeout, Socket, Details, blank_info, blank_addr, socket_event, bind_event, connect_event,
  shutdown_event, listen_event, accept_event, accept4_event, getsockopt_event, setsockopt_event,
  send_event, recv_event, sendto_event, recvfrom_event, sendmsg_event, recvmsg_event,
  sendmmsg_event, recvmmsg_event, getsockname_event, getpeername_event,
}
use tcpsnitch.Event.Fill.{
  MsghdrArg, MmsghdrArg, fill_addr, fill_sock_info, fill_sockopt, fill_msghdr, fill_mmsghdr_vec,
}
use tcpsnitch.Registry.{ra_is_present, ra_put_elem}
use tcpsnitch.World.{M, pure, ◌>>=◌, ◌>>◌, on_registry}
use tcpsnitch.Init.{init_tcpsnitch}
use tcpsnitch.Sockets.{alloc_socket, alloc_event, push_event, free_and_dump_socket}
use tcpsnitch.Tracer.{Plan, ev_handler}

abbrev pub plan : Details → (Socket → Socket) → Plan
plan d f = record { details = d; change = f }

abbrev pub keep : Socket → Socket
keep s = s

-- The `unsigned long` counters of a socket.
unfoldable pub add_sent : ℕ → Socket → Socket
add_sent bytes s = record s { bytes_sent = (s.bytes_sent + bytes) % 2 ^ 64 }

unfoldable pub add_received : ℕ → Socket → Socket
add_received bytes s = record s { bytes_received = (s.bytes_received + bytes) % 2 ^ 64 }

abbrev pub failed : ℤ → Bool
failed ret = eqb_ℤ ret minus_one

infixl 5 ◌>>>◌
abbrev pub ◌>>>◌ : {A : Type 0} → Outcome A → (A → Plan) → Outcome Plan
o >>> f = bind_outcome o (λ a. done (f a))

-- The socket of a new descriptor, with its first event.
unfoldable pub open_socket : ℕ → SockInfo → M (Unit {0})
open_socket fd info = do
  sock ← alloc_socket fd
  ev ← alloc_event socket (pos fd) (pos 0) 0 (socket_event info)
  _ ← on_registry (ra_put_elem fd (push_event (record sock { sock_info = info }) ev))
  pure tt

unfoldable pub sock_ev_socket : ℕ → ℕ → ℕ → ℕ → M (Unit {0})
sock_ev_socket fd domain type protocol = do
  init_tcpsnitch
  present ← on_registry (ra_is_present fd)
  if present then free_and_dump_socket fd else pure tt
  open_socket fd (fill_sock_info domain type protocol)

-- Once `bind` succeeds its address is kept; `fill_addr` has seen that it fits.
unfoldable pub bound_by : ℤ → Addr → Socket → Socket
bound_by ret a s =
    if eqb_ℤ ret (pos 0)
    then record s {
      bound = true;
      bound_addr = take a.len a.sockaddr_sto ++ drop a.len s.bound_addr;
    }
    else s

unfoldable pub sock_ev_bind : ℕ → ℤ → ℤ → Text → ℕ → M (Unit {0})
unfolding bound_by
sock_ev_bind fd ret err addr len =
    ev_handler bind bind false fd ret err
      (fill_addr addr len >>> λ a. plan (bind_event a) (bound_by ret a))

unfoldable pub sock_ev_connect : ℕ → ℤ → ℤ → Text → ℕ → M (Unit {0})
sock_ev_connect fd ret err addr len =
    ev_handler connect connect false fd ret err
      (fill_addr addr len >>> λ a. plan (connect_event a) keep)

-- SHUT_RD is 0, SHUT_WR 1 and SHUT_RDWR 2.
unfoldable pub sock_ev_shutdown : ℕ → ℤ → ℤ → ℤ → M (Unit {0})
sock_ev_shutdown fd ret err how = ev_handler shutdown shutdown false fd ret err (
    done (
      plan
        (shutdown_event (eqb_ℤ how (pos 0) || eqb_ℤ how (pos 2))
          (eqb_ℤ how (pos 1) || eqb_ℤ how (pos 2)))
        keep))

unfoldable pub sock_ev_listen : ℕ → ℤ → ℤ → ℤ → M (Unit {0})
sock_ev_listen fd ret err backlog =
    ev_handler listen listen false fd ret err (done (plan (listen_event backlog) keep))

-- An address that a call gives back, where it is asked for and the call has not failed.
unfoldable pub returned_addr : ℤ → Option Text → ℕ → Outcome Addr
returned_addr ret none len = done blank_addr
returned_addr ret (some addr) len = if failed ret then done blank_addr else fill_addr addr len

unfoldable pub sock_ev_accept : ℕ → ℤ → ℤ → Option Text → ℕ → M (Unit {0})
unfolding returned_addr
sock_ev_accept fd ret err addr addr_len =
    ev_handler accept accept (not (failed ret)) fd ret err
      (returned_addr ret addr addr_len >>> λ a. plan (accept_event blank_info a) keep)

unfoldable pub sock_ev_accept4 : ℕ → ℤ → ℤ → Option Text → ℕ → ℕ → M (Unit {0})
unfolding returned_addr
sock_ev_accept4 fd ret err addr addr_len flags =
    ev_handler accept4 accept4 (not (failed ret)) fd ret err
      (returned_addr ret addr addr_len >>> λ a. plan (accept4_event blank_info a flags) keep)

unfoldable pub sock_ev_getsockopt : ℕ → ℤ → ℤ → ℕ → ℕ → Text → ℕ → M (Unit {0})
sock_ev_getsockopt fd ret err level optname optval optlen =
    ev_handler getsockopt setsockopt false fd ret err
      (fill_sockopt level optname optval optlen true fd >>> λ o. plan (getsockopt_event o) keep)

unfoldable pub sock_ev_setsockopt : ℕ → ℤ → ℤ → ℕ → ℕ → Text → ℕ → M (Unit {0})
sock_ev_setsockopt fd ret err level optname optval optlen =
    ev_handler setsockopt setsockopt false fd ret err
      (fill_sockopt level optname optval optlen false fd >>> λ o. plan (setsockopt_event o) keep)

-- The counters take the bytes that a call asks for, whatever it returns.
unfoldable pub sock_ev_send : ℕ → ℤ → ℤ → ℕ → ℕ → M (Unit {0})
sock_ev_send fd ret err bytes flags =
    ev_handler send send false fd ret err (done (plan (send_event bytes flags) (add_sent bytes)))

unfoldable pub sock_ev_recv : ℕ → ℤ → ℤ → ℕ → ℕ → M (Unit {0})
sock_ev_recv fd ret err bytes flags =
    ev_handler recv recv false fd ret err
      (done (plan (recv_event bytes flags) (add_received bytes)))

unfoldable pub given_addr : Option Text → ℕ → Outcome Addr
given_addr none len = done blank_addr
given_addr (some addr) len = fill_addr addr len

unfoldable pub sock_ev_sendto : ℕ → ℤ → ℤ → ℕ → ℕ → Option Text → ℕ → M (Unit {0})
unfolding given_addr
sock_ev_sendto fd ret err bytes flags addr len =
    ev_handler sendto sendto false fd ret err
      (given_addr addr len >>> λ a. plan (sendto_event bytes flags a) (add_sent bytes))

unfoldable pub sock_ev_recvfrom : ℕ → ℤ → ℤ → ℕ → ℕ → Option Text → ℕ → M (Unit {0})
unfolding returned_addr
sock_ev_recvfrom fd ret err bytes flags addr len =
    ev_handler recvfrom recvfrom false fd ret err
      (returned_addr ret addr len >>> λ a. plan (recvfrom_event bytes flags a) (add_received bytes))

unfoldable pub sock_ev_sendmsg : ℕ → ℤ → ℤ → MsghdrArg → ℕ → M (Unit {0})
sock_ev_sendmsg fd ret err msg flags =
    ev_handler sendmsg sendmsg false fd ret err
      (fill_msghdr msg >>> λ (m, bytes). plan (sendmsg_event bytes flags m) (add_sent bytes))

unfoldable pub sock_ev_recvmsg : ℕ → ℤ → ℤ → MsghdrArg → ℕ → M (Unit {0})
sock_ev_recvmsg fd ret err msg flags =
    ev_handler recvmsg recvmsg false fd ret err
      (fill_msghdr msg >>> λ (m, bytes). plan (recvmsg_event bytes flags m) (add_received bytes))

unfoldable pub sock_ev_sendmmsg : ℕ → ℤ → ℤ → List MmsghdrArg → ℕ → ℕ → M (Unit {0})
sock_ev_sendmmsg fd ret err vmessages vlen flags = ev_handler sendmmsg sendmmsg false fd ret err (
    fill_mmsghdr_vec vmessages vlen >>> λ (v, bytes).
    plan (sendmmsg_event bytes flags vlen v) (add_sent bytes))

-- A `struct timespec` argument: seconds and nanoseconds.
unfoldable pub timeout_of : Option (ℤ × ℤ) → Timeout
timeout_of none = record { seconds = pos 0; nanoseconds = pos 0 }
timeout_of (some (sec, nsec)) = record { seconds = sec; nanoseconds = nsec }

unfoldable pub sock_ev_recvmmsg :
    ℕ → ℤ → ℤ → List MmsghdrArg → ℕ → ℕ → Option (ℤ × ℤ) → M (Unit {0})
unfolding timeout_of
sock_ev_recvmmsg fd ret err vmessages vlen flags tmo =
    ev_handler recvmmsg recvmmsg false fd ret err (
      fill_mmsghdr_vec vmessages vlen >>> λ (v, bytes).
      plan (recvmmsg_event bytes flags (timeout_of tmo) vlen v) (add_received bytes))

unfoldable pub sock_ev_getsockname : ℕ → ℤ → ℤ → Text → ℕ → M (Unit {0})
unfolding returned_addr
sock_ev_getsockname fd ret err addr addrlen =
    ev_handler getsockname getsockname false fd ret err
      (returned_addr ret (some addr) addrlen >>> λ a. plan (getsockname_event a) keep)

unfoldable pub sock_ev_getpeername : ℕ → ℤ → ℤ → Text → ℕ → M (Unit {0})
unfolding returned_addr
sock_ev_getpeername fd ret err addr addrlen =
    ev_handler getpeername getpeername false fd ret err
      (returned_addr ret (some addr) addrlen >>> λ a. plan (getpeername_event a) keep)
