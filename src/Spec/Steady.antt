-- ===== src/Spec/Steady.antt =====
-- The functions of sock_events.c that hooks are made of leave the directory of the traces and the options
-- of an initialized library alone.
use tcpsnitch.Base.{
  ℕ, refl, ℤ, pos, negsuc, Bool, true, false, not, ◌||◌, Option, none, some, eqb_ℤ, ltb_ℤ,
  if◌then◌else◌, Bool-cases, inl, inr,
}
use tcpsnitch.Outcome.{Outcome, done, fault}
use tcpsnitch.Bytes.{Text}
use tcpsnitch.Event.{SockEventType, SockEvent, Socket, Details, SockInfo, tcp_info}
use tcpsnitch.Event.Fill.{fill_sock_info}
use tcpsnitch.Tracer.Handlers.{open_socket, sock_ev_socket}
use tcpsnitch.Registry.{
  Ra, ra_put_elem, write_elem, read_elem, ra_remove_elem, ra_is_present, ra_get_and_lock_elem,
  ra_unlock_elem,
}
use tcpsnitch.Kernel.{Kernel}
use tcpsnitch.CLib.{is_tcp_socket}
use tcpsnitch.World.{M, pure, lift, on_registry, get_time_micros}
use tcpsnitch.Init.{init_tcpsnitch}
use tcpsnitch.Init.Once.{init_tcpsnitch-again}
use tcpsnitch.Sockets.{
  alloc_socket, alloc_event, output_event, alloc_json_path_str, dump_loop, write_lines,
  dump_events_as_json, stop_capture, stop_switch, dump_and_free, free_and_dump_socket,
  sock_ev_ghost_socket,
}
use tcpsnitch.Tracer.{
  not_null, ev_prelude, modify_socket, micros_elapsed, should_dump_tcp_info, ev_finish,
  sock_ev_tcp_info, tcp_dump_tcp_info, ev_postlude, put_at, dup_socket, dup_if, Plan, ev_handler,
}
use tcpsnitch.Spec.Settled.{
  Ends, Settled, Settled-refl, Steady, bind-Settled, ended, faulty, lines_result, registry_result,
  result_first, result_if,
}

module _ (k : Kernel) where
  pub if-Steady :
      {A : Type 0} (b : Bool) (m n : M A) → Steady k m → Steady k n → Steady k (if b then m else n)
  if-Steady true m n p q = p
  if-Steady false m n p q = q

  pub pure-Steady : {A : Type 0} (a : A) → Steady k (pure a)
  pure-Steady a w = ended (Settled-refl w)

  pub registry-Steady : {A : Type 0} (m : Ra Socket A) → Steady k (on_registry m)
  registry-Steady m w = registry_result w (m w.registry)

  pub lift-Steady : {A : Type 0} (o : Outcome A) → Steady k (lift o)
  lift-Steady (done a) w = ended (Settled-refl w)
  lift-Steady (fault e) w = faulty

  pub time-Steady : Steady k get_time_micros
  unfolding get_time_micros
  time-Steady w = ended (record { ready = λ e. e; dir = λ e. refl; options = λ e. refl })

  pub alloc_socket-Steady : (fd : ℕ) → Steady k (alloc_socket fd)
  unfolding alloc_socket
  alloc_socket-Steady fd w = ended (record { ready = λ e. e; dir = λ e. refl; options = λ e. refl })

  pub alloc_event-Steady :
      (type : SockEventType) (ret err : ℤ) (id : ℕ) (d : Details)
      → Steady k (alloc_event type ret err id d)
  unfolding alloc_event get_time_micros
  alloc_event-Steady type ret err id d w =
      ended (record { ready = λ e. e; dir = λ e. refl; options = λ e. refl })

  pub output_event-Steady : (ev : SockEvent) → Steady k (output_event ev)
  unfolding output_event
  output_event-Steady ev w =
      result_if (not w.std_out || eqb_ℤ w.options.opt_v (pos 0)) (ended (Settled-refl w))
        (ended (record { ready = λ e. e; dir = λ e. refl; options = λ e. refl }))

  pub not_null-Steady : (o : Option Socket) → Steady k (not_null o)
  unfolding not_null
  not_null-Steady none w = faulty
  not_null-Steady (some s) w = ended (Settled-refl w)

  pub write_lines-Steady : (path : Text) (sock : Socket) → Steady k (write_lines path sock)
  unfolding write_lines
  write_lines-Steady path sock w = lines_result w sock (dump_loop k path false sock.events w.trace)

  pub modify-Steady : (fd : ℕ) (f : Socket → Socket) → Steady k (modify_socket fd f)
  unfolding modify_socket
  modify-Steady fd f = registry-Steady (write_elem fd f)

  pub init-Steady : Steady k init_tcpsnitch
  init-Steady w = elim (Bool-cases w.initialized) [
    | inl e ↦ rw (init_tcpsnitch-again k w e) (ended (Settled-refl w))
    | inr e ↦ result_first (init_tcpsnitch k w) e
  ]

  pub dump_events-Steady : (sock : Socket) → Steady k (dump_events_as_json sock)
  unfolding dump_events_as_json
  dump_events-Steady sock w = bind-Settled (lift-Steady (alloc_json_path_str w sock) w) λ (path, v).
      elim path
        as (λ path.
          Ends (λ (_, u). Settled v u)
            ((elim path as (λ _. M Socket) [
              | none ↦ pure sock
              | some p ↦ if k.fopen p then write_lines p sock else pure sock
            ])
              k v)) [
                | none ↦ ended (Settled-refl v)
                | some p ↦
                    if-Steady (k.fopen p) (write_lines p sock) (pure sock)
                      (write_lines-Steady p sock) (pure-Steady sock) v
              ]

  pub stop_switch-Steady : (flag : Option ℕ) (rtt : ℤ) → Steady k (stop_switch flag rtt)
  unfolding stop_switch stop_capture
  stop_switch-Steady none rtt w = ended (Settled-refl w)
  stop_switch-Steady (some flag) rtt w =
      ended (record { ready = λ e. e; dir = λ e. refl; options = λ e. refl })

  pub dump_and_free-Steady : (o : Option Socket) → Steady k (dump_and_free o)
  unfolding dump_and_free
  dump_and_free-Steady none w = faulty
  dump_and_free-Steady (some s) w =
      bind-Settled (stop_switch-Steady s.capture_switch s.rtt w)
        λ (_, v). bind-Settled (dump_events-Steady s v) λ (_, u). ended (Settled-refl u)

  pub free_and_dump-Steady : (fd : ℕ) → Steady k (free_and_dump_socket fd)
  unfolding free_and_dump_socket
  free_and_dump-Steady fd w =
      bind-Settled (registry-Steady (ra_remove_elem fd) w) λ (o, v). dump_and_free-Steady o v

  pub ghost-Steady : (fd : ℕ) → Steady k (sock_ev_ghost_socket fd)
  unfolding sock_ev_ghost_socket
  ghost-Steady fd w = bind-Settled (alloc_socket-Steady fd w) λ (_, v).
      bind-Settled (alloc_event-Steady _ _ _ _ _ v) λ (_, u).
        bind-Settled (registry_result u (ra_put_elem fd _ u.registry))
          λ (_, x). ended (Settled-refl x)

  pub open_socket-Steady : (fd : ℕ) (info : SockInfo) → Steady k (open_socket fd info)
  unfolding open_socket
  open_socket-Steady fd info w = bind-Settled (alloc_socket-Steady fd w) λ (_, v).
      bind-Settled (alloc_event-Steady _ _ _ _ _ v) λ (_, u).
        bind-Settled (registry_result u (ra_put_elem fd _ u.registry))
          λ (_, x). ended (Settled-refl x)

  pub sock_ev_socket-Steady :
      (fd domain type protocol : ℕ) → Steady k (sock_ev_socket fd domain type protocol)
  unfolding sock_ev_socket
  sock_ev_socket-Steady fd domain type protocol w = bind-Settled (init-Steady w) λ (_, v).
      bind-Settled (registry-Steady (ra_is_present fd) v) λ (present, u).
        bind-Settled
          (if-Steady present (free_and_dump_socket fd) (pure tt) (free_and_dump-Steady fd)
            (pure-Steady tt) u)
          λ (_, x). open_socket-Steady fd (fill_sock_info domain type protocol) x

  pub ev_prelude-Steady : (fd : ℕ) → Steady k (ev_prelude fd)
  unfolding ev_prelude
  ev_prelude-Steady fd w = bind-Settled (init-Steady w) λ (_, v).
      bind-Settled (registry-Steady (ra_is_present fd) v) λ (present, u).
        bind-Settled
          (if-Steady present (pure tt) (sock_ev_ghost_socket fd) (pure-Steady tt) (ghost-Steady fd)
            u)
          λ (_, x).
            bind-Settled (registry-Steady (ra_get_and_lock_elem fd) x) λ (o, y). not_null-Steady o y

  pub micros_elapsed-Steady : (s : Socket) → Steady k (micros_elapsed s)
  unfolding micros_elapsed
  micros_elapsed-Steady s w =
      if-Steady (ltb_ℤ (pos 0) w.options.opt_u) _ _
        (λ v. bind-Settled (time-Steady v) λ (_, u). ended (Settled-refl u)) (pure-Steady false) w

  pub should_dump-Steady : (s : Socket) → Steady k (should_dump_tcp_info s)
  unfolding should_dump_tcp_info
  should_dump-Steady s w =
      if-Steady (not (is_tcp_socket k w.options.opt_c s.fd)) _ _ (pure-Steady false)
        (λ v. bind-Settled (micros_elapsed-Steady s v) λ (_, u). ended (Settled-refl u)) w

  pub ev_finish-Steady :
      (type : SockEventType) (fd : ℕ) (ev : SockEvent) → Steady k (ev_finish type fd ev)
  unfolding ev_finish
  ev_finish-Steady type fd ev w = bind-Settled (modify-Steady fd _ w) λ (_, v).
      bind-Settled (output_event-Steady ev v) λ (_, u).
        bind-Settled (registry-Steady (read_elem fd) u) λ (sock, x).
          bind-Settled (should_dump-Steady sock x) λ (due, y).
            bind-Settled (registry-Steady (ra_unlock_elem fd) y) λ (_, z). ended (Settled-refl z)

  pub tcp_dump-Steady : (fd : ℕ) → Steady k (tcp_dump_tcp_info fd)
  unfolding tcp_dump_tcp_info sock_ev_tcp_info
  tcp_dump-Steady fd w = bind-Settled (ev_prelude-Steady fd w) λ (sock, v).
      bind-Settled (alloc_event-Steady _ _ _ _ _ v) λ (ev, u).
        bind-Settled (modify-Steady fd _ u) λ (_, x). bind-Settled (time-Steady x) λ (now, y).
          bind-Settled (modify-Steady fd _ y) λ (_, z).
            bind-Settled (ev_finish-Steady tcp_info fd ev z) λ (_, t). ended (Settled-refl t)

  pub ev_postlude-Steady :
      (type : SockEventType) (fd : ℕ) (ev : SockEvent) → Steady k (ev_postlude type fd ev)
  unfolding ev_postlude
  ev_postlude-Steady type fd ev w = bind-Settled (ev_finish-Steady type fd ev w) λ (due, v).
      if-Steady due (tcp_dump_tcp_info fd) (pure tt) (tcp_dump-Steady fd) (pure-Steady tt) v

  pub put_at-Steady : (ret : ℤ) (s : Socket) → Steady k (put_at ret s)
  unfolding put_at
  put_at-Steady (pos ret) s w =
      bind-Settled (registry-Steady (ra_put_elem ret s) w) λ (_, v). ended (Settled-refl v)
  put_at-Steady (negsuc ret) s w = faulty

  pub dup_socket-Steady : (fd : ℕ) (ret : ℤ) (ev : SockEvent) → Steady k (dup_socket fd ret ev)
  unfolding dup_socket
  dup_socket-Steady fd ret ev w = bind-Settled (alloc_socket-Steady _ w) λ (new, v).
      bind-Settled (registry-Steady (read_elem fd) v) λ (sock, u).
        bind-Settled (alloc_event-Steady _ _ _ _ _ u) λ (_, x).
          bind-Settled (registry-Steady (ra_unlock_elem fd) x) λ (_, y).
            bind-Settled (put_at-Steady ret _ y) λ (_, z).
              bind-Settled (registry-Steady (ra_get_and_lock_elem fd) z)
                λ (_, t). ended (Settled-refl t)

  pub dup_if-Steady : (b : Bool) (fd : ℕ) (ret : ℤ) (ev : SockEvent) → Steady k (dup_if b fd ret ev)
  unfolding dup_if
  dup_if-Steady true fd ret ev = dup_socket-Steady fd ret ev
  dup_if-Steady false fd ret ev = pure-Steady tt

  pub ev_handler-Steady :
      (type post : SockEventType) (b : Bool) (fd : ℕ) (ret err : ℤ) (o : Outcome Plan)
      → Steady k (ev_handler type post b fd ret err o)
  unfolding ev_handler
  ev_handler-Steady type post b fd ret err o w = bind-Settled (ev_prelude-Steady fd w) λ (sock, v).
      bind-Settled (lift-Steady o v) λ (plan, u).
        bind-Settled (alloc_event-Steady _ _ _ _ _ u) λ (ev, x).
          bind-Settled (modify-Steady fd plan.change x) λ (_, y).
            bind-Settled (dup_if-Steady b fd ret ev y) λ (_, z). ev_postlude-Steady post fd ev z
