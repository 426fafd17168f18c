-- ===== src/Spec/Hook.antt =====
-- What a handler of sock_events.c does between its prelude and its postlude.
use tcpsnitch.Base.{
  ℕ, suc, ◌+◌, ◌%◌, ◌^◌, ◌≡◌, refl, sym, subst, ap, ◌∙◌, ℤ, pos, to_long, true, false, not, ◌&&◌,
  none, some, Option-cases, inl, inr,
}
use tcpsnitch.Outcome.{Returns, returns, Returns-bind, Returns-mono}
use tcpsnitch.Event.{
  SockEventType, SockEvent, Socket, ghost_socket, tcp_info, tcp_info_event, TcpInfo,
}
use tcpsnitch.Registry.{ra_get_and_lock_elem}
use tcpsnitch.Kernel.{Kernel}
use tcpsnitch.CLib.{time_micros}
use tcpsnitch.World.{World, ◌>>=◌, on_registry, get_time_micros}
use tcpsnitch.Init.LogsDir.{IsSane}
use tcpsnitch.Init.Once.{Untouched, init_tcpsnitch-Untouched}
use tcpsnitch.Sockets.{push_event}
use tcpsnitch.Tracer.{
  ev_prelude, ev_finish, sock_ev_tcp_info, tcp_dump_tcp_info, is_tcp_info, not_null,
}
use tcpsnitch.Spec.Settled.{Settled-trans, Returns-Ends}
use tcpsnitch.Spec.Steady.{modify-Steady, output_event-Steady}
use tcpsnitch.Spec.Due.{is_due, is_asked, should_dump-due}
use tcpsnitch.Spec.{
  Setting, setting_of, with_event, Abs, put, with_socket, Shows, ShowsHeld, Shows-Untouched,
  ShowsHeld-Untouched, put-same, Shows-again, ShowsHeld-again,
}
use tcpsnitch.Spec.Table.{
  is_present-Shows, get-Shows, modify-ShowsHeld, read-ShowsHeld, unlock-ShowsHeld,
}
use tcpsnitch.Spec.Start.{IsEvent, IsNew, alloc_event-IsEvent, output_event-Calm, ghost-Shows}

-- The socket that the prelude finds or makes, and the state with it.
pub data Entered (fd : ℕ) (a : Abs) : Socket → Abs → Type 0 where
  known : {s : Socket} → a.table fd ≡ some s → Entered fd a s a
  made :
      {g : Socket}
      → a.table fd ≡ none
      → IsNew ghost_socket a.count fd g
      → Entered fd a g (record a { table = put fd (some g) a.table; count = suc a.count })

pub Entered-table :
    {fd : ℕ} {a : Abs} {s : Socket} {b : Abs} → Entered fd a s b → b.table fd ≡ some s
Entered-table (known e) = e
Entered-table {fd} {a} (made {g} _ _) = put-same fd (some g) a.table

-- What the last reading of TCP_INFO leaves in the socket.
abbrev pub noted : TcpInfo → ℕ → Socket → Socket
noted info now s = record s {
  last_info_dump_bytes = to_long ((s.bytes_sent + s.bytes_received) % 2 ^ 64);
  last_info_dump_micros = to_long now;
  rtt = pos info.rtt;
}

-- TCP_INFO as a hook reads it into a socket, with its event and the reading `c` of the clock.
pub data Informed (k : Kernel) (fd : ℕ) (s : Socket) : Socket → Type 0 where
  read_info :
      {ev : SockEvent} (ret err : ℤ) (info : TcpInfo) (c : ℕ)
      → k.tcp_info fd ≡ (ret, err, info)
      → IsEvent tcp_info ret err s.events_count (tcp_info_event info) ev
      → Informed k fd s (with_event (noted info (time_micros k c) s) ev)

-- The socket at the end of a hook: where TCP_INFO is not due at a reading of the clock, as the hook has left it; where it is due,
-- with what TCP_INFO has told.
pub data Final (k : Kernel) (u : Setting) (fd : ℕ) (s : Socket) : Socket → Type 0 where
  quiet : (c : ℕ) → is_asked k u c s ≡ false → Final k u fd s s
  informed : {t : Socket} (c : ℕ) → is_asked k u c s ≡ true → Informed k fd s t → Final k u fd s t

module _ (k : Kernel) where
  locked-Shows :
      {a : Abs} {w : World} (fd : ℕ) {s : Socket}
      → a.table fd ≡ some s
      → Shows a w
      → Returns
          (λ (t, v). (t ≡ s) × ShowsHeld fd a v)
          ((on_registry (ra_get_and_lock_elem fd) >>= not_null) k w)
  unfolding not_null
  locked-Shows fd e t =
      Returns-bind (get-Shows k t fd e) λ (o, v) (got, held). rw got (returns (refl, held))

  -- Where the socket is known it is locked as it is.
  pub ev_prelude-known :
      IsSane k
      → {a : Abs} {w : World} (fd : ℕ) {s : Socket} → a.table fd ≡ some s
      → Shows a w
      → Returns (λ (t, v). (t ≡ s) × ShowsHeld fd a v) (ev_prelude fd k w)
  unfolding ev_prelude
  ev_prelude-known sane {a} {w} fd e s =
      Returns-bind (init_tcpsnitch-Untouched k sane w) λ (_, v) (same, _).
        let here = Shows-Untouched same s in
        rw (is_present-Shows k here fd, e) (locked-Shows fd e here)

  ev_prelude-made :
      IsSane k
      → {a : Abs} {w : World} (fd : ℕ) → a.table fd ≡ none
      → Shows a w
      → Returns (λ (s, v). (b : Abs) × Entered fd a s b × ShowsHeld fd b v) (ev_prelude fd k w)
  unfolding ev_prelude
  ev_prelude-made sane {a} {w} fd e s =
      Returns-bind (init_tcpsnitch-Untouched k sane w) λ (_, v) (same, _).
        let here = Shows-Untouched same s in
        rw (is_present-Shows k here fd, e)
          (Returns-bind (ghost-Shows k fd here) λ (_, u) (g, new, shows).
            Returns-mono (locked-Shows fd (put-same fd (some g) a.table) shows)
              (λ (t, x) (same_socket, held). rw same_socket (
                (record a { table = put fd (some g) a.table; count = suc a.count }),
                made e new,
                held,
              )))

  -- From every state of the tracer, where the surroundings are sane, the prelude ends without a fault,
  -- with the socket of `fd` locked: the known one, or a ghost made for it.
  pub ev_prelude-Entered :
      IsSane k
      → {a : Abs} {w : World} (fd : ℕ) → Shows a w
      → Returns (λ (s, v). (b : Abs) × Entered fd a s b × ShowsHeld fd b v) (ev_prelude fd k w)
  ev_prelude-Entered sane {a} fd s = elim (Option-cases (a.table fd)) [
    | inl e ↦ ev_prelude-made sane fd e s
    | inr (x, e) ↦
        Returns-mono (ev_prelude-known sane fd e s)
          (λ (t, v) (same, held). rw same (a, known e, held))
  ]

  -- The end of a handler stores its event and leaves no lock.
  pub ev_finish-Shows :
      {a : Abs} {w : World} (type : SockEventType) (fd : ℕ) (ev : SockEvent) {s : Socket}
      → a.table fd ≡ some s
      → ShowsHeld fd a w
      → Returns
          (λ (due, v).
            Shows (with_socket fd (some (with_event s ev)) a) v
            × (w.initialized ≡ true
                → (c : ℕ) × (due
                    ≡ is_asked k (setting_of (not (is_tcp_info type)) w) c (with_event s ev))))
          (ev_finish type fd ev k w)
  unfolding ev_finish push_event
  ev_finish-Shows {a} {w} type fd ev {s} e held =
      Returns-bind
        (Returns-Ends (modify-ShowsHeld k held (λ s. with_event s ev) e) (modify-Steady k fd _ w))
        λ (_, w1) (h1, t1).
          Returns-bind (Returns-Ends (output_event-Calm k ev w1) (output_event-Steady k ev w1))
            λ (_, w2) (u2, t2).
              let h2 = ShowsHeld-Untouched u2 h1 in
              rw (read-ShowsHeld k h2 (put-same fd _ a.table)) (
                Returns-bind (should_dump-due k (with_event s ev) w2) (λ (due, w3) (u3, c, is).
                  Returns-bind (unlock-ShowsHeld k (ShowsHeld-Untouched u3 h2)) (λ (_, w4) shows.
                    returns (
                      shows,
                      λ ready. (
                        c,
                        ap (λ b. b && not (is_tcp_info type)) is
                            ∙ ap
                                (λ o.
                                  is_due k o (time_micros k c) (with_event s ev)
                                  && not (is_tcp_info type))
                                ((Settled-trans t1 t2).options ready),
                      ),
                    ))))

  get_time-Untouched :
      (w : World)
      → Returns (λ (now, v). Untouched w v × (now ≡ time_micros k w.clock)) (get_time_micros k w)
  unfolding get_time_micros
  get_time-Untouched w =
      returns (record { registry = refl; count = refl; trace = refl; alive = λ e. e }, refl)

  -- TCP_INFO is read into the socket, as an event of its own.
  pub tcp_dump_tcp_info-Shows :
      IsSane k
      → {a : Abs} {w : World} (fd : ℕ) {s : Socket} → a.table fd ≡ some s
      → Shows a w
      → Returns
          (λ (_, v). (t : Socket) × Informed k fd s t × Shows (with_socket fd (some t) a) v)
          (tcp_dump_tcp_info fd k w)
  unfolding tcp_dump_tcp_info sock_ev_tcp_info
  tcp_dump_tcp_info-Shows sane {a} fd {s} e shows =
      Returns-bind (ev_prelude-known sane fd e shows) λ (x, w1) (same, h1).
        let (ret, err, info) = k.tcp_info fd in
        Returns-bind
          (alloc_event-IsEvent k tcp_info ret err x.events_count (tcp_info_event info) w1)
          λ (ev, w2) (is, u2).
            Returns-bind (modify-ShowsHeld k (ShowsHeld-Untouched u2 h1) _ e) λ (_, w3) h3.
              Returns-bind (get_time-Untouched w3) λ (now, w4) (u4, at).
                Returns-bind
                  (modify-ShowsHeld k (ShowsHeld-Untouched u4 h3) _ (put-same fd _ a.table))
                  λ (_, w5) h5.
                    Returns-bind
                      (ev_finish-Shows tcp_info fd ev (put-same fd _ a.table)
                        (ShowsHeld-again fd _ _ a h5))
                      λ (due, w6) (shows6, _). returns (
                        _,
                        read_info ret err info w3.clock refl (rw (sym same) is),
                        subst
                            (λ n.
                              Shows (with_socket fd (some (with_event (noted info n s) ev)) a) w6)
                            at (Shows-again fd _ _ a shows6),
                      )
