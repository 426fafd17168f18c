-- ===== src/Spec/Start.antt =====
-- The first and the last steps of the hooks of sock_events.c, on the state of the tracer.
use tcpsnitch.Base.{
  ℕ, suc, ◌≡◌, refl, ap, inl, inr, ℤ, pos, false, not, some, [], ◌∷◌, eqb_ℤ, ltb_ℤ, Bool-cases,
  ◌||◌,
}
use tcpsnitch.Outcome.{Returns, returns, Returns-bind}
use tcpsnitch.Event.Kinds.{kind}
use tcpsnitch.Event.Whole.{IsWhole}
use tcpsnitch.Event.{SockEventType, SockEvent, Socket, Details, ghost_socket}
use tcpsnitch.Kernel.{Kernel}
use tcpsnitch.CLib.{is_tcp_socket}
use tcpsnitch.World.{World, pure, get_time_micros}
use tcpsnitch.Init.Once.{Untouched, Untouched-refl, Calm, Calm-bind, Calm-if, Calm-pure}
use tcpsnitch.Sockets.{
  alloc_socket, alloc_event, err_val, push_event, sock_ev_ghost_socket, output_event,
}
use tcpsnitch.Tracer.{should_dump_tcp_info, micros_elapsed, bytes_elapsed}
use tcpsnitch.Spec.{Abs, put, Shows}
use tcpsnitch.Spec.Table.{put-Shows}

-- An event that was made for a call with these results.
pub record IsEvent (type : SockEventType) (ret err : ℤ) (id : ℕ) (d : Details) (ev : SockEvent)
    : Type 0 where
  pub type_is : ev.type ≡ type
  pub returned : ev.return_value ≡ ret
  pub success_is : ev.success ≡ not (eqb_ℤ ret (err_val type))
  pub err_is : ev.err ≡ err
  pub id_is : ev.id ≡ id
  pub details_are : ev.details ≡ d

-- A socket just made for `fd` under the number `n`, with one event.
pub record IsNew (type : SockEventType) (n fd : ℕ) (s : Socket) : Type 0 where
  pub id_is : s.id ≡ n
  pub fd_is : s.fd ≡ fd
  pub counted : s.events_count ≡ 1
  pub sent : s.bytes_sent ≡ 0
  pub received : s.bytes_received ≡ 0
  pub first : SockEvent
  pub events_are : s.events ≡ first ∷ []
  pub first_type : first.type ≡ type
  pub first_whole : IsWhole type first.details
  pub first_id : first.id ≡ 0

module _ (k : Kernel) where
  pub alloc_event-IsEvent :
      (type : SockEventType) (ret err : ℤ) (id : ℕ) (d : Details) (w : World)
      → Returns
          (λ (ev, v). IsEvent type ret err id d ev × Untouched w v)
          (alloc_event type ret err id d k w)
  unfolding alloc_event get_time_micros
  alloc_event-IsEvent type ret err id d w = returns (
    record {
      type_is = refl;
      returned = refl;
      success_is = refl;
      err_is = refl;
      id_is = refl;
      details_are = refl;
    },
    record { registry = refl; count = refl; trace = refl; alive = λ e. e },
  )

  pub output_event-Calm : (ev : SockEvent) → Calm k (output_event ev)
  unfolding output_event
  output_event-Calm ev w = elim (Bool-cases (not w.std_out || eqb_ℤ w.options.opt_v (pos 0))) [
    | inl b ↦ rw b (returns (Untouched-refl w))
    | inr b ↦
        rw b (returns (record { registry = refl; count = refl; trace = refl; alive = λ e. e }))
  ]

  micros_elapsed-Calm : (s : Socket) → Calm k (micros_elapsed s)
  unfolding micros_elapsed get_time_micros
  micros_elapsed-Calm s w =
      Calm-if k (ltb_ℤ (pos 0) w.options.opt_u) _ _
        (λ v. returns (record { registry = refl; count = refl; trace = refl; alive = λ e. e }))
        (Calm-pure k false) w

  pub should_dump_tcp_info-Calm : (s : Socket) → Calm k (should_dump_tcp_info s)
  unfolding should_dump_tcp_info
  should_dump_tcp_info-Calm s w =
      Calm-if k (not (is_tcp_socket k w.options.opt_c s.fd)) _ _ (Calm-pure k false)
        (Calm-bind (micros_elapsed s) (λ late. pure (late || bytes_elapsed w.options s))
          (micros_elapsed-Calm s) (λ late. Calm-pure k (late || bytes_elapsed w.options s)))
        w

  -- The state once a ghost socket is made for `fd`.
  pub ghost-Shows :
      {a : Abs} {w : World} (fd : ℕ)
      → Shows a w
      → Returns
          (λ (_, v).
            (g : Socket) × IsNew ghost_socket a.count fd g
            × Shows (record a { table = put fd (some g) a.table; count = suc a.count }) v)
          (sock_ev_ghost_socket fd k w)
  unfolding kind sock_ev_ghost_socket alloc_socket push_event alloc_event get_time_micros
  ghost-Shows {a} {w} fd s = Returns-bind (put-Shows k (counted s) fd _) λ (_, v) (_, after).
      returns (
        _,
        record {
          id_is = s.count;
          fd_is = refl;
          counted = refl;
          sent = refl;
          received = refl;
          first = _;
          events_are = refl;
          first_type = refl;
          first_whole = (refl, tt);
          first_id = refl;
        },
        after,
      )
    where
      counted :
          Shows a w
          → Shows
              (record a { count = suc a.count })
              (record w { connections_count = suc w.connections_count; clock = suc w.clock })
      counted t = record {
        idle = t.idle;
        table = t.table;
        count = ap suc t.count;
        lines = t.lines;
        alive = t.alive;
      }
