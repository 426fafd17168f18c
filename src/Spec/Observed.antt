-- ===== src/Spec/Observed.antt =====
-- What the functions of libc_overrides.c record, and what the program sees of them.
use tcpsnitch.Base.{
  ℕ, zero, suc, ◌≤◌, ◌≡◌, refl, sym, ◌∙◌, subst, ℤ, pos, negsuc, true, false, List, [], ◌∷◌, ◌++◌,
  arith, Bool-cases, inl, inr, length,
}
use tcpsnitch.Outcome.{Returns, returns, Returns-bind, Returns-mono}
use tcpsnitch.Kernel.{Kernel}
use tcpsnitch.CLib.{is_inet_socket}
use tcpsnitch.World.{World}
use tcpsnitch.Init.LogsDir.{IsSane}
use tcpsnitch.Overrides.{
  answer, if_inet, override, PollFd, poll_loop, poll_override, EpollEvent, epoll_loop,
  epoll_wait_override, count_of,
}
use tcpsnitch.Spec.Settled.{Settled, Settled-refl, Settled-trans, setting-Settled}
use tcpsnitch.Spec.{Setting, setting_of, Abs, Shows}
use tcpsnitch.Spec.Dump.{Serialises}
use tcpsnitch.Spec.Calls.{Call, run, on_poll, on_epoll_wait}
use tcpsnitch.Spec.Effects.{effect_of, IsLegal}
use tcpsnitch.Spec.Steps.{Step}
use tcpsnitch.Spec.Refine.{run-Takes}

-- The states that calls lead to, each with its descriptor and all with the same directory and
-- options, where those are left out whose descriptor is no Internet socket: the option -c, which widens
-- the kinds of sockets that count, can be set by the first hook.
pub data Observed (k : Kernel) (u : Setting) : List (ℕ × Call) → Abs → Abs → Type 0 where
  finish : {a : Abs} → Observed k u [] a a
  seen :
      {fd : ℕ} {c : Call} {cs : List (ℕ × Call)} {a b d : Abs} (o : ℤ)
      → is_inet_socket k o fd ≡ true
      → Step k u (effect_of c) a b
      → Observed k u cs b d
      → Observed k u ((fd, c) ∷ cs) a d
  left_out :
      {fd : ℕ} {c : Call} {cs : List (ℕ × Call)} {a d : Abs} (o : ℤ)
      → is_inet_socket k o fd ≡ false
      → Observed k u cs a d
      → Observed k u ((fd, c) ∷ cs) a d

Observed-trans :
    {k : Kernel} {u : Setting} {cs ds : List (ℕ × Call)} {a b d : Abs}
    → Observed k u cs a b
    → Observed k u ds b d
    → Observed k u (cs ++ ds) a d
Observed-trans finish q = q
Observed-trans (seen o e s p) q = seen o e s (Observed-trans p q)
Observed-trans (left_out o e p) q = left_out o e (Observed-trans p q)

-- What a run of the functions below does: it makes these calls, with the directory and the options that
-- the library has at any later time.
abbrev pub Seen : Kernel → List (ℕ × Call) → Abs → World → World → Type 0
Seen k cs a w v =
    (b : Abs) × ((u : Setting)
      → (v.initialized ≡ true → u ≡ setting_of true v)
      → Observed k u cs a b)
    × Shows b v
    × Settled w v

pub Seen-none : {k : Kernel} {a : Abs} {w : World} → Shows a w → Seen k [] a w w
Seen-none {w = w} s = (_, λ u e. finish, s, Settled-refl w)

pub Seen-trans :
    {k : Kernel} {cs ds : List (ℕ × Call)} {a b : Abs} {w v x : World}
    → ((u : Setting) → (v.initialized ≡ true → u ≡ setting_of true v) → Observed k u cs a b)
    → Settled w v
    → Seen k ds b v x
    → Seen k (cs ++ ds) a w x
Seen-trans first t (d, rest, s, t2) = (
  d,
  λ u same.
      Observed-trans (first u (λ ready. same (t2.ready ready) ∙ setting-Settled true ready t2))
        (rest u same),
  s,
  Settled-trans t t2,
)

pub Seen-Observed :
    {k : Kernel} {cs : List (ℕ × Call)} {a : Abs} {w v : World}
    → Seen k cs a w v
    → (b : Abs) × Observed k (setting_of true v) cs a b × Shows b v
Seen-Observed {v = v} (b, calls, s, _) = (b, calls (setting_of true v) (λ e. refl), s)

-- The call of a descriptor, if it is one.
abbrev pub at_fd : ℤ → (ℕ → Call) → List (ℕ × Call)
at_fd (negsuc n) c = []
at_fd (pos fd) c = (fd, c fd) ∷ []

abbrev pub poll_calls : ℕ → List PollFd → ℤ → ℤ → ℤ → List (ℕ × Call)
poll_calls zero fds ret err timeout = []
poll_calls (suc n) [] ret err timeout = []
poll_calls (suc n) (p ∷ fds) ret err timeout =
    at_fd p.fd (λ d. on_poll d ret err p.events p.revents timeout)
    ++ poll_calls n fds ret err timeout

abbrev pub epoll_calls : ℕ → List EpollEvent → (ℕ → ℕ → Call) → List (ℕ × Call)
epoll_calls zero events c = []
epoll_calls (suc n) [] c = []
epoll_calls (suc n) (e ∷ events) c = at_fd e.fd (λ d. c d e.events) ++ epoll_calls n events c

module _ (k : Kernel) (sane : IsSane k) (json : Serialises k) where
  pub if_inet-Seen :
      {a : Abs} {w : World} (fd : ℤ) (c : ℕ → Call)
      → ((d : ℕ) → fd ≡ pos d → IsLegal (c d))
      → Shows a w
      → Returns (λ (_, v). Seen k (at_fd fd c) a w v) (if_inet fd (λ d. run (c d)) k w)
  unfolding if_inet
  if_inet-Seen (negsuc n) c legal s = returns (Seen-none s)
  if_inet-Seen {a} {w} (pos fd) c legal s =
      elim (Bool-cases (is_inet_socket k w.options.opt_c fd)) [
        | inl e ↦ rw e (
            Returns-mono (run-Takes k sane json (c fd) (legal fd refl) _ _ s)
              (λ (_, v) ((b, st, s1), ready, t). (
                b,
                λ u same.
                    seen w.options.opt_c e
                      (subst (λ x. Step k x (effect_of (c fd)) a b) (sym (same ready)) st) finish,
                s1,
                t,
              )))
        | inr e ↦ rw e (returns (a, λ u same. left_out w.options.opt_c e finish, s, Settled-refl w))
      ]

  pub if_inet-Observed :
      {a : Abs} {w : World} (fd : ℤ) (c : ℕ → Call)
      → ((d : ℕ) → fd ≡ pos d → IsLegal (c d))
      → Shows a w
      → Returns
          (λ (_, v). (b : Abs) × Observed k (setting_of true v) (at_fd fd c) a b × Shows b v)
          (if_inet fd (λ d. run (c d)) k w)
  if_inet-Observed fd c legal s =
      Returns-mono (if_inet-Seen fd c legal s) (λ (_, v) h. Seen-Observed h)

  -- A function that is put in place by the macro `override` gives the program the result and the
  -- `errno` of the original one; it records the call if its descriptor is an Internet socket and
  -- nothing else, where the call is legal, the surroundings are sane and every event can be made a
  -- JSON text.
  pub override-Observed :
      {a : Abs} {w : World} (fd ret err : ℤ) (c : ℕ → Call)
      → ((d : ℕ) → fd ≡ pos d → IsLegal (c d))
      → Shows a w
      → Returns
          (λ (x, v).
            (x ≡ answer ret err)
            × ((b : Abs) × Observed k (setting_of true v) (at_fd fd c) a b × Shows b v))
          (override fd ret err (λ d. run (c d)) k w)
  unfolding override
  override-Observed fd ret err c legal s =
      Returns-bind (if_inet-Observed fd c legal s) λ (_, v) h. returns (refl, h)

  poll_loop-Seen :
      (n : ℕ) (fds : List PollFd) (ret err timeout : ℤ) {a : Abs} {w : World}
      → n ≤ length fds
      → Shows a w
      → Returns
          (λ (_, v). Seen k (poll_calls n fds ret err timeout) a w v)
          (poll_loop n fds ret err timeout k w)
  unfolding poll_loop
  poll_loop-Seen zero fds ret err timeout h s = returns (Seen-none s)
  poll_loop-Seen (suc n) [] ret err timeout h s = absurd (omega arith)
  poll_loop-Seen (suc n) (p ∷ fds) ret err timeout h s =
      Returns-bind
        (if_inet-Seen p.fd (λ d. on_poll d ret err p.events p.revents timeout) (λ d _. tt) s)
        λ (_, w1) (b, first, s1, t1).
          Returns-mono (poll_loop-Seen n fds ret err timeout (omega arith) s1)
            (λ (_, v) rest. Seen-trans first t1 rest)

  -- `poll` gives the program the result and the `errno` of the original function, and records the
  -- call once for each entry whose descriptor is an Internet socket, in their order; where there are as
  -- many entries as it is told, the surroundings are sane and every event can be made a JSON text.
  pub poll-Observed :
      {a : Abs} {w : World} (fds : List PollFd) (nfds : ℕ) (ret err timeout : ℤ)
      → nfds ≤ length fds
      → Shows a w
      → Returns
          (λ (x, v).
            (x ≡ answer ret err)
            × ((b : Abs) × Observed k (setting_of true v) (poll_calls nfds fds ret err timeout) a b
                × Shows b v))
          (poll_override fds nfds ret err timeout k w)
  unfolding poll_override
  poll-Observed fds nfds ret err timeout h s =
      Returns-bind (poll_loop-Seen nfds fds ret err timeout h s)
        λ (_, v) p. returns (refl, Seen-Observed p)

  epoll_loop-Seen :
      (n : ℕ) (events : List EpollEvent) (c : ℕ → ℕ → Call) {a : Abs} {w : World}
      → ((d e : ℕ) → IsLegal (c d e))
      → n ≤ length events
      → Shows a w
      → Returns
          (λ (_, v). Seen k (epoll_calls n events c) a w v)
          (epoll_loop n events (λ d e. run (c d e)) k w)
  unfolding epoll_loop
  epoll_loop-Seen zero events c legal h s = returns (Seen-none s)
  epoll_loop-Seen (suc n) [] c legal h s = absurd (omega arith)
  epoll_loop-Seen (suc n) (e ∷ events) c legal h s =
      Returns-bind (if_inet-Seen e.fd (λ d. c d e.events) (λ d _. legal d e.events) s)
        λ (_, w1) (b, first, s1, t1).
          Returns-mono (epoll_loop-Seen n events c legal (omega arith) s1)
            (λ (_, v) rest. Seen-trans first t1 rest)

  -- `epoll_wait` gives the program the result and the `errno` of the original function, and records
  -- the call once for each event that was returned for an Internet socket, in their order; where the
  -- program's buffer holds the events that are returned, the surroundings are sane and every
  -- event can be made a JSON text.
  pub epoll_wait-Observed :
      {a : Abs} {w : World} (events : List EpollEvent) (timeout ret err : ℤ)
      → count_of ret ≤ length events
      → Shows a w
      → Returns
          (λ (x, v).
            (x ≡ answer ret err)
            × ((b : Abs) × Observed k
                  (setting_of true v)
                  (epoll_calls (count_of ret) events (λ d e. on_epoll_wait d ret err timeout e))
                  a
                  b
                × Shows b v))
          (epoll_wait_override events timeout ret err k w)
  unfolding epoll_wait_override
  epoll_wait-Observed events timeout ret err h s =
      Returns-bind
        (epoll_loop-Seen (count_of ret) events (λ d e. on_epoll_wait d ret err timeout e)
          (λ d e. tt) h s)
        λ (_, v) p. returns (refl, Seen-Observed p)
