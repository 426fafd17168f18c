-- ===== src/Sockets.antt =====
-- The private functions of sock_events.c on sockets and events: how they are made, and what is done
-- when a socket is closed or its events are written out.
use tcpsnitch.Base.{
  ℕ, suc, ℤ, pos, minus_one, scale, Bool, true, false, not, ◌||◌, Option, none, some, List, [], ◌∷◌,
  ◌++◌, eqb_ℤ, if◌then◌else◌, bit_and,
}
use tcpsnitch.Outcome.{Outcome, done, fault, null_deref, dangling}
use tcpsnitch.Bytes.{Text, has_flag}
use tcpsnitch.Text.{codes, alloc_file_name}
use tcpsnitch.Event.{
  SockEventType, socket, forked_socket, ghost_socket, fdopen, SockInfo, SockEvent, Socket, Details,
  zero_storage, blank_info, ghost_socket_event, forked_socket_event,
}
use tcpsnitch.Event.Fill.{sock_cloexec_flag, sock_nonblock_flag}
use tcpsnitch.Registry.{ra_put_elem, ra_remove_elem}
use tcpsnitch.Verbose.{event_line}
use tcpsnitch.Kernel.{Kernel}
use tcpsnitch.CLib.{sol_socket, so_domain, so_protocol, so_type}
use tcpsnitch.World.{
  World, M, pure, fail, ◌>>=◌, ◌>>◌, lift, kernel, get_world, on_registry, get_time_micros,
}

-- A zeroed socket with the next number. The count is an `int` of the source, which it stays as long as
-- fewer than 2^31 sockets have been numbered.
unfoldable pub alloc_socket : ℕ → M Socket
alloc_socket fd k w = done (
  record {
    events = [];
    id = w.connections_count;
    fd = fd;
    sock_info = blank_info;
    events_count = 0;
    bytes_sent = 0;
    bytes_received = 0;
    last_info_dump_micros = pos 0;
    last_info_dump_bytes = pos 0;
    bound = false;
    bound_addr = zero_storage;
    rtt = pos 0;
    capture_switch = none;
  },
  record w { connections_count = suc w.connections_count },
)

-- The return value by which a call tells that it failed.
unfoldable pub err_val : SockEventType → ℤ
err_val socket = pos 0
err_val fdopen = pos 0
err_val _ = minus_one

-- The header of an event, with the details that its structure will hold.
unfoldable pub alloc_event : SockEventType → ℤ → ℤ → ℕ → Details → M SockEvent
unfolding err_val
alloc_event type return_value err id details = do
  now ← get_time_micros
  k ← kernel
  pure (record {
    type = type;
    timestamp_usec = now;
    return_value = return_value;
    success = not (eqb_ℤ return_value (err_val type));
    err = err;
    id = id;
    thread_id = k.gettid;
    details = details;
  })

-- The node of an event goes behind the tail.
unfoldable pub push_event : Socket → SockEvent → Socket
push_event sock ev = record sock {
  events = sock.events ++ ev ∷ [];
  events_count = suc sock.events_count;
}

unfoldable pub or_else : Option ℕ → ℕ → ℕ
or_else none d = d
or_else (some v) d = v

-- An option that cannot be read leaves the zero of a blank structure, or, for the type, what is on
-- the stack.
unfoldable pub fill_sock_info_from_fd : Kernel → ℕ → SockInfo
unfolding or_else
fill_sock_info_from_fd k fd =
    let type = or_else (k.getsockopt fd sol_socket so_type) k.uninitialized in
    record {
      domain = or_else (k.getsockopt fd sol_socket so_domain) 0;
      type = bit_and type 0b1111;
      protocol = or_else (k.getsockopt fd sol_socket so_protocol) 0;
      sock_cloexec = has_flag type sock_cloexec_flag;
      sock_nonblock = has_flag type sock_nonblock_flag;
      filled = true;
    }

-- verbose_mode.c: an event is shown where there is a standard output and the option asks for it.
unfoldable pub output_event : SockEvent → M (Unit {0})
unfolding event_line
output_event ev k w =
    if not w.std_out || eqb_ℤ w.options.opt_v (pos 0)
    then done (tt, w)
    else done (tt, record w { shown = w.shown ++ event_line k.getpid ev ∷ [] })

-- The JSON file of a socket.
unfoldable pub alloc_json_path_str : World → Socket → Outcome (Option Text)
alloc_json_path_str w sock =
    if w.logs_dir_freed
    then fault dangling
    else alloc_file_name w.logs_dir_path (pos sock.id) (codes ".json")

-- The file of the packets of a socket.
unfoldable pub alloc_pcap_path_str : World → Socket → Outcome (Option Text)
alloc_pcap_path_str w sock =
    if w.logs_dir_freed
    then fault dangling
    else alloc_file_name w.logs_dir_path (pos sock.id) (codes ".pcap")

-- The loop over the list of events: one line each. Whether the text of an event can be made is an answer
-- of the surroundings here; Json.Build has the building of its object. Where no text can be made of an event the loop
-- is left with the events before it freed, while `sock->head` still points to the first.
unfoldable pub dump_loop :
    Kernel
    → Text
    → Bool
    → List SockEvent
    → List (Text × SockEvent)
    → Outcome (Bool × List (Text × SockEvent))
dump_loop k path freed [] lines = done (true, lines)
dump_loop k path freed (ev ∷ evs) lines =
    let rest = dump_loop k path true evs (lines ++ (path, ev) ∷ []) in
    if k.json_dumps ev then rest else if freed then fault dangling else done (false, lines)

unfoldable pub write_lines : Text → Socket → M Socket
unfolding dump_loop
write_lines path sock k w = elim (dump_loop k path false sock.events w.trace) [
  | fault e ↦ fault e
  | done (all, lines) ↦
      done (if all then record sock { events = [] } else sock, record w { trace = lines })
]

-- Each event becomes a line of the socket's file, and is freed. `OPT_D` is the name of a variable
-- and never null, so the test of it always passes.
unfoldable pub dump_events_as_json : Socket → M Socket
unfolding write_lines
dump_events_as_json sock = do
  w ← get_world
  k ← kernel
  path ← lift (alloc_json_path_str w sock)
  elim path [ none ↦ pure sock | some p ↦ if k.fopen p then write_lines p sock else pure sock ]

-- packet_sniffer.c: the flag is turned off by a thread after the delay, or at once where there is
-- no thread.
unfoldable pub stop_capture : ℕ → ℤ → M (Unit {0})
stop_capture switch_flag delay_ms k w = done (
  tt,
  record w {
    stopped = w.stopped ++ (switch_flag, if k.pthread_create then delay_ms else pos 0) ∷ [];
  },
)

unfoldable pub stop_switch : Option ℕ → ℤ → M (Unit {0})
unfolding stop_capture
stop_switch none rtt = pure tt
stop_switch (some flag) rtt = stop_capture flag (scale rtt 2)

unfoldable pub dump_and_free : Option Socket → M (Unit {0})
unfolding stop_switch
dump_and_free none = fail null_deref
dump_and_free (some sock) = do
  stop_switch sock.capture_switch sock.rtt
  _ ← dump_events_as_json sock
  pure tt

unfoldable pub free_and_dump_socket : ℕ → M (Unit {0})
unfolding dump_and_free
free_and_dump_socket fd = do sock ← on_registry (ra_remove_elem fd); dump_and_free sock

-- A new socket whose first event is `type`, at the place `fd` of the table.
unfoldable pub sock_ev_forked_socket : ℕ → SockInfo → M (Unit {0})
sock_ev_forked_socket fd sock_info = do
  forked_sock ← alloc_socket fd
  ev ← alloc_event forked_socket (pos 0) (pos 0) 0 (forked_socket_event sock_info)
  _ ← on_registry (ra_put_elem fd (push_event (record forked_sock { sock_info = sock_info }) ev))
  pure tt

unfoldable pub sock_ev_ghost_socket : ℕ → M (Unit {0})
sock_ev_ghost_socket fd = do
  ghost_sock ← alloc_socket fd
  k ← kernel
  let info = fill_sock_info_from_fd k fd
  ev ← alloc_event ghost_socket (pos 0) (pos 0) 0 (ghost_socket_event info)
  _ ← on_registry (ra_put_elem fd (push_event (record ghost_sock { sock_info = info }) ev))
  pure tt
