-- ===== src/Spec/Readied.antt =====
-- After a hook of sock_events.c the library is initialized.
use tcpsnitch.Base.{ℕ, ◌≡◌, ℤ, Bool, true}
use tcpsnitch.Outcome.{Outcome, bind_outcome, Returns, returns}
use tcpsnitch.Event.{SockEventType}
use tcpsnitch.Event.Fill.{fill_sock_info}
use tcpsnitch.Tracer.Handlers.{sock_ev_socket}
use tcpsnitch.Registry.{ra_is_present, ra_get_and_lock_elem}
use tcpsnitch.Kernel.{Kernel}
use tcpsnitch.World.{World, M, pure}
use tcpsnitch.Init.{init_tcpsnitch}
use tcpsnitch.Init.LogsDir.{IsSane}
use tcpsnitch.Init.Once.{init_tcpsnitch-Untouched}
use tcpsnitch.Sockets.{free_and_dump_socket, sock_ev_ghost_socket}
use tcpsnitch.Tracer.{ev_prelude, Plan, ev_handler}
use tcpsnitch.Spec.Settled.{Ends, Settled, bind-Settled, ended, faulty}
use tcpsnitch.Spec.Steady.{
  alloc_event-Steady, dup_if-Steady, ev_postlude-Steady, free_and_dump-Steady, ghost-Steady,
  if-Steady, lift-Steady, modify-Steady, not_null-Steady, open_socket-Steady, pure-Steady,
  registry-Steady,
}

Ends-right : {A : Type 0} {P Q : A → Type 0} {r : Outcome A} → Returns (λ a. P a × Q a) r → Ends Q r
Ends-right (returns p) = ended (p.1)

-- Whether the library is initialized after a run that ends.
abbrev pub Readied : {A : Type 0} → Kernel → World → M A → Type 0
Readied k w m = Ends (λ (_, v). v.initialized ≡ true) (m k w)

bind-Readied :
    {A B : Type 0} {r : Outcome (A × World)} {f : A × World → Outcome (B × World)}
    → Ends (λ (_, v). v.initialized ≡ true) r
    → ((p : A × World) → Ends (λ (_, u). Settled p.1 u) (f p))
    → Ends (λ (_, u). u.initialized ≡ true) (bind_outcome r f)
bind-Readied (ended {a} e) next = ready_after e (next a)
  where
    ready_after :
        {B : Type 0} {w : World} {r : Outcome (B × World)}
        → w.initialized ≡ true
        → Ends (λ (_, u). Settled w u) r
        → Ends (λ (_, u). u.initialized ≡ true) r
    ready_after e (ended h) = ended (h.ready e)
    ready_after e faulty = faulty
bind-Readied faulty next = faulty

module _ (k : Kernel) (sane : IsSane k) where
  init-Readied : (w : World) → Readied k w init_tcpsnitch
  init-Readied w = Ends-right (init_tcpsnitch-Untouched k sane w)

  pub sock_ev_socket-Readied :
      (fd domain type protocol : ℕ) (w : World)
      → Readied k w (sock_ev_socket fd domain type protocol)
  unfolding sock_ev_socket
  sock_ev_socket-Readied fd domain type protocol w = bind-Readied (init-Readied w) λ (_, v).
      bind-Settled (registry-Steady k (ra_is_present fd) v) λ (present, u).
        bind-Settled
          (if-Steady k present (free_and_dump_socket fd) (pure tt) (free_and_dump-Steady k fd)
            (pure-Steady k tt) u)
          λ (_, x). open_socket-Steady k fd (fill_sock_info domain type protocol) x

  pub ev_prelude-Readied : (fd : ℕ) (w : World) → Readied k w (ev_prelude fd)
  unfolding ev_prelude
  ev_prelude-Readied fd w = bind-Readied (init-Readied w) λ (_, v).
      bind-Settled (registry-Steady k (ra_is_present fd) v) λ (present, u).
        bind-Settled
          (if-Steady k present (pure tt) (sock_ev_ghost_socket fd) (pure-Steady k tt)
            (ghost-Steady k fd) u)
          λ (_, x).
            bind-Settled (registry-Steady k (ra_get_and_lock_elem fd) x)
              λ (o, y). not_null-Steady k o y

  pub ev_handler-Readied :
      (type post : SockEventType) (b : Bool) (fd : ℕ) (ret err : ℤ) (o : Outcome Plan) (w : World)
      → Readied k w (ev_handler type post b fd ret err o)
  unfolding ev_handler
  ev_handler-Readied type post b fd ret err o w =
      bind-Readied (ev_prelude-Readied fd w) λ (sock, v).
        bind-Settled (lift-Steady k o v) λ (plan, u).
          bind-Settled (alloc_event-Steady k _ _ _ _ _ u) λ (ev, x).
            bind-Settled (modify-Steady k fd plan.change x) λ (_, y).
              bind-Settled (dup_if-Steady k b fd ret ev y)
                λ (_, z). ev_postlude-Steady k post fd ev z
