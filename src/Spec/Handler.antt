-- ===== src/Spec/Handler.antt =====
-- What a whole handler of sock_events.c does to the state of the tracer.
use tcpsnitch.Base.{
  ℕ, suc, ◌≡◌, refl, sym, ap, subst, not, Bool, ◌∙◌, ℤ, pos, true, false, some, [], ◌∷◌, Bool-cases,
  inl, inr,
}
use tcpsnitch.Outcome.{done, Returns, returns, Returns-bind, Returns-mono}
use tcpsnitch.Event.{SockEventType, SockEvent, Socket}
use tcpsnitch.Kernel.{Kernel}
use tcpsnitch.World.{World}
use tcpsnitch.Init.LogsDir.{IsSane}
use tcpsnitch.Sockets.{alloc_socket, push_event}
use tcpsnitch.Tracer.{
  is_tcp_info, ev_postlude, ev_handler, Plan, dup_if, dup_socket, put_at, fd_of, set_sock_info,
}
use tcpsnitch.Spec.Settled.{Settled-trans, setting-Settled, Returns-Ends}
use tcpsnitch.Spec.Steady.{
  alloc_event-Steady, modify-Steady, ev_finish-Steady, tcp_dump-Steady, dup_socket-Steady,
}
use tcpsnitch.Spec.Readied.{ev_prelude-Readied}
use tcpsnitch.Spec.Due.{is_asked}
use tcpsnitch.Spec.{
  Setting, setting_of, with_event, Abs, put, with_socket, Shows, ShowsHeld, ShowsHeld-Untouched,
  put-same, put-other, put-under, Shows-again,
}
use tcpsnitch.Spec.Table.{put-Shows, get-Shows, modify-ShowsHeld, read-ShowsHeld, unlock-ShowsHeld}
use tcpsnitch.Spec.Start.{IsEvent, alloc_event-IsEvent}
use tcpsnitch.Spec.Hook.{
  Entered, Entered-table, Final, quiet, informed, ev_prelude-Entered, ev_finish-Shows,
  tcp_dump_tcp_info-Shows,
}

-- The state after a handler: the socket of `fd`, made first where it was not known, has been
-- changed and has one more event, and what TCP_INFO tells where that is due.
pub data Handled (k : Kernel) (u : Setting) (type : SockEventType) (fd : ℕ) (ret err : ℤ) (p : Plan)
    (a : Abs) : Abs → Type 0 where
  handled :
      {s t : Socket} {b : Abs} {ev : SockEvent}
      → Entered fd a s b
      → IsEvent type ret err s.events_count p.details ev
      → Final k u fd (with_event (p.change s) ev) t
      → Handled k u type fd ret err p a (with_socket fd (some t) b)

-- The socket of a duplicate: numbered `n`, for the descriptor `r`, with the information of `s` and
-- its event `ev`, under the number that `s` gave it.
pub record IsCopy (n r : ℕ) (s : Socket) (ev : SockEvent) (c : Socket) : Type 0 where
  pub id_is : c.id ≡ n
  pub fd_is : c.fd ≡ r
  pub counted : c.events_count ≡ 1
  pub sent : c.bytes_sent ≡ 0
  pub received : c.bytes_received ≡ 0
  pub info : c.sock_info ≡ s.sock_info
  pub events_are : c.events ≡ record ev { details = set_sock_info s.sock_info ev.details } ∷ []

-- The same for a call that makes a second descriptor `r` of a socket.
pub data Duplicated (k : Kernel) (u : Setting) (type : SockEventType) (fd r : ℕ) (err : ℤ)
    (p : Plan) (a : Abs) : Abs → Type 0 where
  duplicated :
      {s c t : Socket} {b : Abs} {ev : SockEvent}
      → Entered fd a s b
      → IsEvent type (pos r) err s.events_count p.details ev
      → IsCopy b.count r (p.change s) ev c
      → Final k u fd (with_event (p.change s) ev) t
      → Duplicated k u type fd r err p a (
          with_socket fd
            (some t)
            (record b { table = put r (some c) b.table; count = suc b.count }))

module _ (k : Kernel) (sane : IsSane k) where
  ev_postlude-Shows :
      {a : Abs} {w : World} (type : SockEventType) (fd : ℕ) (ev : SockEvent) {s : Socket}
      → a.table fd ≡ some s
      → w.initialized ≡ true
      → ShowsHeld fd a w
      → Returns
          (λ (_, v).
            (t : Socket) × Final k (setting_of (not (is_tcp_info type)) v) fd (with_event s ev) t
            × Shows (with_socket fd (some t) a) v)
          (ev_postlude type fd ev k w)
  unfolding ev_postlude
  ev_postlude-Shows {a} {w} type fd ev {s} e ready held =
      Returns-bind
        (Returns-Ends (ev_finish-Shows k type fd ev e held) (ev_finish-Steady k type fd ev w))
        λ (due, v) ((shows, when), t1).
          let (c, is) = when ready in
          elim (Bool-cases due) [
            | inl b ↦ rw b (
                Returns-mono
                  (Returns-Ends (tcp_dump_tcp_info-Shows k sane fd (put-same fd _ a.table) shows)
                    (tcp_dump-Steady k fd v))
                  (λ (_, u) ((t, told, end), t2).
                    let same =
                      setting-Settled (not (is_tcp_info type)) ready (Settled-trans t1 t2) in
                    (
                      t,
                      informed c (moved c (with_event s ev) same (sym is ∙ b)) told,
                      Shows-again fd _ _ a end,
                    )))
            | inr b ↦
                let same = setting-Settled (not (is_tcp_info type)) ready t1 in
                rw b (returns (_, quiet c (moved c (with_event s ev) same (sym is ∙ b)), shows))
          ]
    where
      moved :
          {u u' : Setting} (c : ℕ) (s : Socket) {x : Bool}
          → u' ≡ u
          → is_asked k u c s ≡ x
          → is_asked k u' c s ≡ x
      moved c s {x} e h = subst (λ v. is_asked k v c s ≡ x) (sym e) h

  -- Where the surroundings are sane, a handler whose call makes no descriptor returns without a fault
  -- and leaves no lock: the socket of its descriptor, made first where it was not known, is changed as
  -- planned and has the event of the call behind its others. Behind that it has TCP_INFO's, with what
  -- was read, exactly where it is due: the event is not TCP_INFO's own, the socket is TCP's, and the
  -- option -u, at one of the readings of the clock, or the option -b asks for it.
  pub ev_handler-Handled :
      {a : Abs} {w : World} (type post : SockEventType) (fd : ℕ) (ret err : ℤ) (p : Plan)
      → Shows a w
      → Returns
          (λ (_, v).
            (b : Abs) × Handled k (setting_of (not (is_tcp_info post)) v) type fd ret err p a b
            × Shows b v)
          (ev_handler type post false fd ret err (done p) k w)
  unfolding ev_handler dup_if
  ev_handler-Handled {a} {w} type post fd ret err p shows =
      Returns-bind
        (Returns-Ends (ev_prelude-Entered k sane fd shows) (ev_prelude-Readied k sane fd w))
        λ (s, w1) ((b, entered, h1), r1).
          Returns-bind
            (Returns-Ends (alloc_event-IsEvent k type ret err s.events_count p.details w1)
              (alloc_event-Steady k _ _ _ _ _ w1))
            λ (ev, w2) ((is, u2), t2).
              Returns-bind
                (Returns-Ends
                  (modify-ShowsHeld k (ShowsHeld-Untouched u2 h1) p.change (Entered-table entered))
                  (modify-Steady k fd p.change w2))
                λ (_, w3) (h3, t3).
                  Returns-mono
                    (ev_postlude-Shows post fd ev (put-same fd _ b.table)
                      ((Settled-trans t2 t3).ready r1) h3)
                    (λ (_, v) (t, final, end).
                      (_, handled entered is final, Shows-again fd _ _ b end))

  put_at-Shows :
      {a : Abs} {w : World} (r : ℕ) (c : Socket)
      → Shows a w
      → Returns (λ (_, v). Shows (with_socket r (some c) a) v) (put_at (pos r) c k w)
  unfolding put_at
  put_at-Shows r c shows = Returns-bind (put-Shows k shows r c) λ (_, v) (_, after). returns after

  dup_socket-Shows :
      {a : Abs} {w : World} (fd r : ℕ) (ev : SockEvent) {s : Socket}
      → a.table fd ≡ some s
      → ((fd ≡ r) → ⊥)
      → ShowsHeld fd a w
      → Returns
          (λ (_, v).
            (c : Socket) × IsCopy a.count r s ev c
            × ShowsHeld fd (record a { table = put r (some c) a.table; count = suc a.count }) v)
          (dup_socket fd (pos r) ev k w)
  unfolding dup_socket put_at fd_of alloc_socket push_event
  dup_socket-Shows {a} {w} fd r ev {s} e apart held = rw (read-ShowsHeld k (counted held) e) (
      Returns-bind (alloc_event-IsEvent k ev.type (pos r) ev.err 0 ev.details _) λ (_, w2) (_, u2).
        Returns-bind (unlock-ShowsHeld k (ShowsHeld-Untouched u2 (counted held))) λ (_, w3) s3.
          Returns-bind (put_at-Shows r _ s3) λ (_, w4) s4.
            Returns-bind (get-Shows k s4 fd (put-other r _ a.table fd apart ∙ e)) λ (_, w5) (_, h5).
              returns (
                _,
                record {
                  id_is = held.count;
                  fd_is = refl;
                  counted = refl;
                  sent = refl;
                  received = refl;
                  info = refl;
                  events_are = refl;
                },
                h5,
              ))
    where
      counted :
          ShowsHeld fd a w
          → ShowsHeld fd
              (record a { count = suc a.count })
              (record w { connections_count = suc w.connections_count })
      counted t = record {
        held = t.held;
        table = t.table;
        count = ap suc t.count;
        lines = t.lines;
        alive = t.alive;
      }

  -- Where the surroundings are sane, a handler whose call makes a second descriptor `r`, other than `fd`,
  -- of a socket returns without a fault and leaves no lock: the event is stored in the socket of the call,
  -- with TCP_INFO's behind it exactly where that is due, and a new socket with the next number and a copy
  -- of the event, under the event's number, is put at `r`.
  pub ev_handler-Duplicated :
      {a : Abs} {w : World} (type post : SockEventType) (fd r : ℕ) (err : ℤ) (p : Plan)
      → ((fd ≡ r) → ⊥)
      → Shows a w
      → Returns
          (λ (_, v).
            (b : Abs) × Duplicated k (setting_of (not (is_tcp_info post)) v) type fd r err p a b
            × Shows b v)
          (ev_handler type post true fd (pos r) err (done p) k w)
  unfolding ev_handler dup_if
  ev_handler-Duplicated {a} {w} type post fd r err p apart shows =
      Returns-bind
        (Returns-Ends (ev_prelude-Entered k sane fd shows) (ev_prelude-Readied k sane fd w))
        λ (s, w1) ((b, entered, h1), r1).
          Returns-bind
            (Returns-Ends (alloc_event-IsEvent k type (pos r) err s.events_count p.details w1)
              (alloc_event-Steady k _ _ _ _ _ w1))
            λ (ev, w2) ((is, u2), t2).
              Returns-bind
                (Returns-Ends
                  (modify-ShowsHeld k (ShowsHeld-Untouched u2 h1) p.change (Entered-table entered))
                  (modify-Steady k fd p.change w2))
                λ (_, w3) (h3, t3).
                  Returns-bind
                    (Returns-Ends (dup_socket-Shows fd r ev (put-same fd _ b.table) apart h3)
                      (dup_socket-Steady k fd (pos r) ev w3))
                    λ (_, w4) ((c, copy, h4), t4).
                      Returns-mono
                        (ev_postlude-Shows post fd ev
                          (put-other r (some c) (put fd (some (p.change s)) b.table) fd apart
                            ∙ put-same fd (some (p.change s)) b.table)
                          ((Settled-trans t2 (Settled-trans t3 t4)).ready r1) h4)
                        (λ (_, v) (t, final, end). (
                          _,
                          duplicated entered is copy final,
                          record {
                            idle = end.idle;
                            table = λ j. end.table j ∙ put-under fd _ _ r _ b.table j;
                            count = end.count;
                            lines = end.lines;
                            alive = end.alive;
                          },
                        ))
