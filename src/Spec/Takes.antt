-- ===== src/Spec/Takes.antt =====
-- The hooks of sock_events.c that differ from the others, and those that are alike, against the steps.
use tcpsnitch.Base.{
  ℕ, zero, suc, ◌≡◌, refl, sym, ap, ◌∙◌, ℤ, pos, negsuc, minus_one, true, false, subst, none, some,
  List, Option-cases, inl, inr, not, if◌then◌else◌, is_some,
}
use tcpsnitch.Outcome.{Outcome, done, Returns, returns, Returns-bind, Returns-mono}
use tcpsnitch.Bytes.{Text}
use tcpsnitch.Event.Kinds.{kind}
use tcpsnitch.Event.{
  SockEventType, socket, close, SockInfo, SockEvent, Socket, close_event, socket_event,
}
use tcpsnitch.Event.Fill.{fill_sock_info}
use tcpsnitch.Kernel.{Kernel}
use tcpsnitch.World.{World, M, pure, get_time_micros}
use tcpsnitch.Init.LogsDir.{IsSane}
use tcpsnitch.Init.Once.{init_tcpsnitch-Untouched}
use tcpsnitch.Sockets.{alloc_socket, alloc_event, push_event, free_and_dump_socket}
use tcpsnitch.Tracer.{Plan, ev_handler, is_tcp_info}
use tcpsnitch.Tracer.Handlers.{plan, keep, failed, open_socket, sock_ev_socket}
use tcpsnitch.Tracer.IoHandlers.{sock_ev_close}
use tcpsnitch.Spec.Settled.{Ends, ended, Returns-Ends, Settled, Settled-trans, setting-Settled}
use tcpsnitch.Spec.Steady.{
  ev_handler-Steady, free_and_dump-Steady, if-Steady, pure-Steady, open_socket-Steady,
  sock_ev_socket-Steady,
}
use tcpsnitch.Spec.Readied.{ev_handler-Readied, sock_ev_socket-Readied}
use tcpsnitch.Spec.{
  Setting, setting_of, Abs, put, with_socket, Shows, Shows-Untouched, put_self, put-put,
}
use tcpsnitch.Spec.Table.{is_present-Shows, put-Shows}
use tcpsnitch.Spec.Start.{IsEvent, IsNew}
use tcpsnitch.Spec.Handler.{Handled, Duplicated, ev_handler-Handled, ev_handler-Duplicated}
use tcpsnitch.Spec.Dump.{Serialises, free_and_dump-Shows}
use tcpsnitch.Spec.Effects.{Effect, logs, dups, opens, closes, NewFd}
use tcpsnitch.Spec.Steps.{
  Cleared, Handled-table, Step, closed, duped, fresh, logged, not_duped, opened, replaced,
}

-- Each state after a run of a function shows a step, made with the directory and the options that the
-- library has then, and the library is initialized.
abbrev pub Reached : Kernel → Effect → Abs → World → World → Type 0
Reached k e a w v =
    ((b : Abs) × Step k (setting_of true v) e a b × Shows b v)
    × (v.initialized ≡ true)
    × Settled w v

-- A function whose every run from a state of the tracer ends, without a fault, in one that `e`
-- leads to.
abbrev pub Takes : Kernel → Effect → M (Unit {0}) → Type 0
Takes k e m = (a : Abs) (w : World) → Shows a w → Returns (λ (_, v). Reached k e a w v) (m k w)

module _ (k : Kernel) (sane : IsSane k) where
  -- What is known of a run, with what is known of the directory and the options.
  with_settings :
      {P : Unit {0} × World → Type 0} {w : World} {r : Outcome (Unit {0} × World)}
      → Returns P r
      → Ends (λ (_, v). v.initialized ≡ true) r
      → Ends (λ (_, v). Settled w v) r
      → Returns (λ p. P p × (p.1.initialized ≡ true) × Settled w p.1) r
  with_settings (returns p) (ended q) (ended s) = returns (p, q, s)

  pub handler-Takes :
      (type post : SockEventType) (fd : ℕ) (ret err : ℤ) (p : Plan)
      → is_tcp_info post ≡ false
      → Takes k (logs type fd ret err p) (ev_handler type post false fd ret err (done p))
  handler-Takes type post fd ret err p other a w shows =
      Returns-mono
        (with_settings (ev_handler-Handled k sane type post fd ret err p shows)
          (ev_handler-Readied k sane type post false fd ret err (done p) w)
          (ev_handler-Steady k type post false fd ret err (done p) w))
        (λ (_, v) ((b, h, after), ready, kept). (
          (
            b,
            logged (subst (λ x. Handled k (setting_of (not x) v) type fd ret err p a b) other h),
            after,
          ),
          ready,
          kept,
        ))

  pub dup-Takes :
      (type : SockEventType) (fd : ℕ) (ret err : ℤ) (p : Plan)
      → NewFd fd ret
      → is_tcp_info type ≡ false
      → Takes k
          (dups type fd ret err p)
          (ev_handler type type (not (failed ret)) fd ret err (done p))
  dup-Takes type fd (pos r) err p apart other a w shows =
      Returns-mono
        (with_settings (ev_handler-Duplicated k sane type type fd r err p apart shows)
          (ev_handler-Readied k sane type type true fd (pos r) err (done p) w)
          (ev_handler-Steady k type type true fd (pos r) err (done p) w))
        (λ (_, v) ((b, h, after), ready, kept). (
          (
            b,
            duped apart
                (subst (λ x. Duplicated k (setting_of (not x) v) type fd r err p a b) other h),
            after,
          ),
          ready,
          kept,
        ))
  dup-Takes type fd (negsuc zero) err p _ other a w shows =
      Returns-mono (handler-Takes type type fd minus_one err p other a w shows)
        (λ (_, v) ((b, one, after), ready, kept).
          ((b, not_duped (handled_of one), after), ready, kept))
    where
      handled_of :
          {u : Setting} {b : Abs}
          → Step k u (logs type fd minus_one err p) a b
          → Handled k u type fd minus_one err p a b
      handled_of (logged h) = h
  dup-Takes type fd (negsuc (suc n)) err p never other a w shows = absurd never

  module _ (json : Serialises k) where
    pub close-Takes :
        (fd : ℕ) (ret err : ℤ) → Takes k (closes fd ret err) (sock_ev_close fd ret err)
    unfolding sock_ev_close is_tcp_info
    close-Takes fd ret err a w shows =
        Returns-bind
          (with_settings
            (ev_handler-Handled k sane close close fd ret err (plan close_event keep) shows)
            (ev_handler-Readied k sane close close false fd ret err _ w)
            (ev_handler-Steady k close close false fd ret err _ w))
          λ (_, w1) ((b, h, s1), ready, t1).
            let (s, e) = Handled-table h in
            Returns-mono
              (Returns-Ends (free_and_dump-Shows k json fd e s1) (free_and_dump-Steady k fd w1))
              (λ (_, v) ((after, t, how, s2), t2). (
                (
                  _,
                  closed
                      (subst (λ u. Handled k u close fd ret err (plan close_event keep) a b)
                        (sym (setting-Settled true ready t2)) h)
                      e how,
                  s2,
                ),
                t2.ready ready,
                Settled-trans t1 t2,
              ))

    Cleared-Shows :
        {a : Abs} {w : World} (fd : ℕ)
        → Shows a w
        → Returns
            (λ (_, v).
              (after : List (Text × SockEvent)) × Cleared k (setting_of true v) fd a after
              × Shows (record (with_socket fd none a) { lines = after }) v)
            ((if is_some (a.table fd) then free_and_dump_socket fd else pure tt) k w)
    Cleared-Shows {a} fd s = elim (Option-cases (a.table fd)) [
      | inl e ↦ rw e (
          returns (
            a.lines,
            fresh e,
            record {
              idle = s.idle;
              table = λ j. s.table j ∙ put_self fd a.table j ∙ ap (λ o. put fd o a.table j) e;
              count = s.count;
              lines = s.lines;
              alive = s.alive;
            },
          ))
      | inr (x, e) ↦ rw e (
          Returns-mono (free_and_dump-Shows k json fd e s)
            (λ (_, v) (after, t, how, s2). (after, replaced e how, s2)))
    ]

    open_socket-Shows :
        {a : Abs} {w : World} (fd : ℕ) (info : SockInfo)
        → Shows a w
        → Returns
            (λ (_, v).
              (s : Socket) × (new : IsNew socket a.count fd s) × (s.sock_info ≡ info)
              × IsEvent socket (pos fd) (pos 0) 0 (socket_event info) new.first
              × Shows (record a { table = put fd (some s) a.table; count = suc a.count }) v)
            (open_socket fd info k w)
    unfolding kind open_socket alloc_socket push_event alloc_event get_time_micros
    open_socket-Shows {a} {w} fd info s =
        Returns-bind (put-Shows k (counted s) fd _) λ (_, v) (_, after). returns (
          _,
          record {
            id_is = s.count;
            fd_is = refl;
            counted = refl;
            sent = refl;
            received = refl;
            first = _;
            events_are = refl;
            first_type = refl;
            first_whole = (refl, tt);
            first_id = refl;
          },
          refl,
          record {
            type_is = refl;
            returned = refl;
            success_is = refl;
            err_is = refl;
            id_is = refl;
            details_are = refl;
          },
          after,
        )
      where
        counted :
            Shows a w
            → Shows
                (record a { count = suc a.count })
                (record w { connections_count = suc w.connections_count; clock = suc w.clock })
        counted t = record {
          idle = t.idle;
          table = t.table;
          count = ap suc t.count;
          lines = t.lines;
          alive = t.alive;
        }

    pub socket-Takes :
        (fd domain type protocol : ℕ)
        → Takes k
            (opens fd (fill_sock_info domain type protocol))
            (sock_ev_socket fd domain type protocol)
    unfolding sock_ev_socket
    socket-Takes fd domain type protocol a w shows =
        with_settings
          (Returns-bind (init_tcpsnitch-Untouched k sane w) λ (_, w1) (same, ready).
            let s1 = Shows-Untouched same shows in
            rw (is_present-Shows k s1 fd) (
              Returns-bind
                (Returns-Ends (Cleared-Shows fd s1) (
                  if-Steady k (is_some (a.table fd)) (free_and_dump_socket fd) (pure tt)
                    (free_and_dump-Steady k fd) (pure-Steady k tt) w1))
                λ (_, w2) ((after, how, s2), t2).
                  Returns-mono
                    (Returns-Ends (open_socket-Shows fd (fill_sock_info domain type protocol) s2)
                      (open_socket-Steady k fd (fill_sock_info domain type protocol) w2))
                    (λ (_, v) ((s, new, info, is, s3), t3). (
                      _,
                      opened
                          (subst (λ u. Cleared k u fd a after)
                            (sym (setting-Settled true (t2.ready ready) t3)) how)
                          new info is,
                      record {
                        idle = s3.idle;
                        table = λ j. s3.table j ∙ put-put fd (some s) none a.table j;
                        count = s3.count;
                        lines = s3.lines;
                        alive = s3.alive;
                      },
                    ))))
          (sock_ev_socket-Readied k sane fd domain type protocol w)
          (sock_ev_socket-Steady k fd domain type protocol w)
