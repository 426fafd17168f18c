-- ===== src/Tracer.antt =====
-- The first and the last steps of every hook (sock_events.c), and how they are composed.
pub mod Handlers
pub mod IoHandlers
pub mod Dump
pub mod Capture
pub mod Ports
use tcpsnitch.Base.{
  ℕ, suc, ◌+◌, ◌*◌, ◌%◌, ◌^◌, ℤ, pos, negsuc, minus_one, ◌-ℤ◌, scale, to_long, Bool, true, false,
  not, ◌&&◌, ◌||◌, Option, none, some, List, [], ◌∷◌, ◌++◌, ltb, ltb_ℤ, eqb_ℤ, if◌then◌else◌,
  bit_and,
}
use tcpsnitch.Outcome.{Outcome, done, fault, null_deref, out_of_bounds, dangling}
use tcpsnitch.Bytes.{Text, has_flag}
use tcpsnitch.Text.{codes, alloc_file_name}
use tcpsnitch.Event.{
  SockEventType, socket, forked_socket, ghost_socket, fdopen, tcp_info, close, SockInfo, SockEvent,
  Socket, Details, TcpInfo, zero_storage, blank_info, ghost_socket_event, forked_socket_event,
  tcp_info_event, accept_event, accept4_event, dup_event, dup2_event, dup3_event, fcntl_event,
  socket_event,
}
use tcpsnitch.Event.Fill.{fill_sock_info, sock_cloexec_flag, sock_nonblock_flag}
use tcpsnitch.Registry.{
  ra_put_elem, ra_get_and_lock_elem, ra_unlock_elem, ra_remove_elem, ra_is_present, ra_get_size,
  write_elem, read_elem,
}
use tcpsnitch.Kernel.{Kernel}
use tcpsnitch.CLib.{is_tcp_socket, sol_socket, so_domain, so_protocol, so_type}
use tcpsnitch.World.{
  World, Options, M, pure, fail, ◌>>=◌, ◌>>◌, lift, kernel, get_world, modify_world, on_registry,
  get_time_micros,
}
use tcpsnitch.Init.{init_tcpsnitch}
use tcpsnitch.Sockets.{
  alloc_socket, err_val, alloc_event, push_event, or_else, fill_sock_info_from_fd, output_event,
  alloc_json_path_str, dump_loop, write_lines, dump_events_as_json, stop_capture, stop_switch,
  dump_and_free, free_and_dump_socket, sock_ev_forked_socket, sock_ev_ghost_socket,
}

unfoldable pub not_null : Option Socket → M Socket
not_null none = fail null_deref
not_null (some sock) = pure sock

-- SOCK_EV_PRELUDE: the socket of `fd`, now locked, and the number of its next event. A descriptor
-- that is not known gets a ghost socket first.
unfoldable pub ev_prelude : ℕ → M Socket
unfolding not_null
ev_prelude fd = do
  init_tcpsnitch
  present ← on_registry (ra_is_present fd)
  if present then pure tt else sock_ev_ghost_socket fd
  sock ← on_registry (ra_get_and_lock_elem fd)
  not_null sock

-- `sock->...` for the locked socket of `fd`.
unfoldable pub modify_socket : ℕ → (Socket → Socket) → M (Unit {0})
modify_socket fd f = on_registry (write_elem fd f)

unfoldable pub micros_elapsed : Socket → M Bool
micros_elapsed sock = do
  w ← get_world
  if ltb_ℤ (pos 0) w.options.opt_u
      then (do
        now ← get_time_micros
        pure (ltb_ℤ w.options.opt_u (to_long now -ℤ sock.last_info_dump_micros)))
      else pure false

unfoldable pub bytes_elapsed : Options → Socket → Bool
bytes_elapsed o sock =
    ltb_ℤ (pos 0) o.opt_b
    && ltb_ℤ o.opt_b
        (to_long ((sock.bytes_sent + sock.bytes_received) % 2 ^ 64) -ℤ sock.last_info_dump_bytes)

unfoldable pub should_dump_tcp_info : Socket → M Bool
unfolding micros_elapsed bytes_elapsed
should_dump_tcp_info sock = do
  k ← kernel
  w ← get_world
  if not (is_tcp_socket k w.options.opt_c sock.fd)
      then pure false
      else (do late ← micros_elapsed sock; pure (late || bytes_elapsed w.options sock))

unfoldable pub is_tcp_info : SockEventType → Bool
is_tcp_info tcp_info = true
is_tcp_info _ = false

-- SOCK_EV_POSTLUDE up to the unlocking: whether TCP_INFO is to be read next.
unfoldable pub ev_finish : SockEventType → ℕ → SockEvent → M Bool
unfolding is_tcp_info
ev_finish ev_type_cons fd ev = do
  modify_socket fd (λ s. push_event s ev)
  output_event ev
  sock ← on_registry (read_elem fd)
  due ← should_dump_tcp_info sock
  on_registry (ra_unlock_elem fd)
  pure (due && not (is_tcp_info ev_type_cons))

-- Its SOCK_EV_POSTLUDE never reads TCP_INFO again, by the test at the end of `ev_finish`.
unfoldable pub sock_ev_tcp_info : ℕ → ℤ → ℤ → TcpInfo → M (Unit {0})
sock_ev_tcp_info fd ret err info = do
  sock ← ev_prelude fd
  ev ← alloc_event tcp_info ret err sock.events_count (tcp_info_event info)
  modify_socket fd (λ s. record s {
    last_info_dump_bytes = to_long ((s.bytes_sent + s.bytes_received) % 2 ^ 64);
  })
  now ← get_time_micros
  modify_socket fd (λ s. record s { last_info_dump_micros = to_long now; rtt = pos info.rtt })
  _ ← ev_finish tcp_info fd ev
  pure tt

unfoldable pub tcp_dump_tcp_info : ℕ → M (Unit {0})
tcp_dump_tcp_info fd = do
  k ← kernel
  let (ret, err, info) = k.tcp_info fd
  sock_ev_tcp_info fd ret err info

-- SOCK_EV_POSTLUDE of every other event.
unfoldable pub ev_postlude : SockEventType → ℕ → SockEvent → M (Unit {0})
ev_postlude ev_type_cons fd ev = do
  dump_tcp_info ← ev_finish ev_type_cons fd ev
  if dump_tcp_info then tcp_dump_tcp_info fd else pure tt

-- `new_ev->sock_info = sock->sock_info`
unfoldable pub set_sock_info : SockInfo → Details → Details
set_sock_info si (accept_event _ a) = accept_event si a
set_sock_info si (accept4_event _ a f) = accept4_event si a f
set_sock_info si (dup_event _) = dup_event si
set_sock_info si (dup2_event _ n) = dup2_event si n
set_sock_info si (dup3_event _ n c) = dup3_event si n c
set_sock_info si (fcntl_event _ c a) = fcntl_event si c a
set_sock_info si d = d

unfoldable pub put_at : ℤ → Socket → M (Unit {0})
put_at (pos ret) sock = do _ ← on_registry (ra_put_elem ret sock); pure tt
put_at (negsuc ret) sock = fail out_of_bounds

-- The descriptor of a new socket, which a table takes as an index.
unfoldable pub fd_of : ℤ → ℕ
fd_of (pos ret) = ret
fd_of (negsuc ret) = 0

-- DUP_SOCKET: a copy of the socket's information and of the event for the new descriptor. The copy
-- overwrites the header that the new event was given, its number 0 too.
unfoldable pub dup_socket : ℕ → ℤ → SockEvent → M (Unit {0})
unfolding put_at fd_of
dup_socket fd ret ev = do
  new_sock ← alloc_socket (fd_of ret)
  sock ← on_registry (read_elem fd)
  _ ← alloc_event ev.type ret ev.err 0 ev.details
  let new_ev = record ev { details = set_sock_info sock.sock_info ev.details }
  on_registry (ra_unlock_elem fd)
  put_at ret (push_event (record new_sock { sock_info = sock.sock_info }) new_ev)
  _ ← on_registry (ra_get_and_lock_elem fd)
  pure tt

-- What a handler computes from its arguments: the details of its event, and what it does to
-- the socket.
pub record Plan : Type 0 where
  pub details : Details
  pub change : Socket → Socket

unfoldable pub dup_if : Bool → ℕ → ℤ → SockEvent → M (Unit {0})
dup_if true fd ret ev = dup_socket fd ret ev
dup_if false fd ret ev = pure tt

-- The shape that all handlers share: SOCK_EV_PRELUDE, the details and the change of the socket,
-- DUP_SOCKET where the call makes a new descriptor, and SOCK_EV_POSTLUDE.
unfoldable pub ev_handler :
    SockEventType → SockEventType → Bool → ℕ → ℤ → ℤ → Outcome Plan → M (Unit {0})
unfolding dup_if
ev_handler type post dup fd ret err outcome = do
  sock ← ev_prelude fd
  plan ← lift outcome
  ev ← alloc_event type ret err sock.events_count plan.details
  modify_socket fd plan.change
  dup_if dup fd ret ev
  ev_postlude post fd ev
