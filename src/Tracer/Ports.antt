-- ===== src/Tracer/Ports.antt =====
-- Which ports `force_bind` (sock_events.c) tries.
use tcpsnitch.Base.{
  ℕ, zero, suc, ◌+◌, ◌<◌, ◌≡◌, ◌≢◌, refl, sym, ap, subst, ◌∙◌, ℤ, pos, minus_one, Bool, List, [],
  ◌∷◌, ◌++◌, append_assoc, arith,
}
use tcpsnitch.Outcome.{Outcome, done}
use tcpsnitch.Kernel.{Kernel}
use tcpsnitch.World.{World}
use tcpsnitch.Capture.Start.{Sniffer, BindAnswer, bound, in_use, not_bound}
use tcpsnitch.Tracer.Capture.{min_port, port_count, call_bind, force_bind_loop, force_bind}

-- The calls for `n` ports from `port` up.
abbrev pub tried : (fd : ℕ) (ipv6 : Bool) (n port : ℕ) → List (ℕ × Bool × ℕ)
tried fd ipv6 zero port = []
tried fd ipv6 (suc n) port = (fd, ipv6, port) ∷ tried fd ipv6 n (port + 1)

abbrev pub bind_result : BindAnswer → ℤ
bind_result bound = pos 0
bind_result in_use = minus_one
bind_result not_bound = minus_one

-- The state after calls of `bind`.
abbrev pub with_binds : World → List (ℕ × Bool × ℕ) → World
with_binds w calls = record w { binds = w.binds ++ calls }

module _ (k : Kernel) (p : Sniffer) (fd : ℕ) (ipv6 : Bool) where
  loop-suc :
      (n port : ℕ) (w : World)
      → p.orig_bind fd ipv6 port ≡ in_use
      → force_bind_loop p fd ipv6 (suc n) port k w
        ≡ force_bind_loop p fd ipv6 n (port + 1) k (with_binds w ((fd, ipv6, port) ∷ []))
  unfolding force_bind_loop call_bind
  loop-suc n port w e = rw (e, force_bind_loop) refl

  loop-last :
      (n port : ℕ) (w : World) (b : BindAnswer)
      → p.orig_bind fd ipv6 port ≡ b
      → b ≢ in_use
      → force_bind_loop p fd ipv6 (suc n) port k w
        ≡ done (bind_result b, with_binds w ((fd, ipv6, port) ∷ []))
  unfolding force_bind_loop call_bind
  loop-last n port w bound e ne = rw (e, force_bind_loop) refl
  loop-last n port w in_use e ne = absurd (ne refl)
  loop-last n port w not_bound e ne = rw (e, force_bind_loop) refl

  joined :
      (w : World) (x : ℕ × Bool × ℕ) (calls : List (ℕ × Bool × ℕ)) (r : ℤ)
      → ◌≡◌ {A = Outcome (ℤ × World)}
          (done (r, with_binds (with_binds w (x ∷ [])) calls))
          (done (r, with_binds w (x ∷ calls)))
  joined w x calls r =
      ap (λ l. done (r, record w { binds = l })) (append_assoc w.binds (x ∷ []) calls)

  loop-first :
      (n m port : ℕ) (w : World)
      → m < n
      → ((i : ℕ) → i < m → p.orig_bind fd ipv6 (port + i) ≡ in_use)
      → p.orig_bind fd ipv6 (port + m) ≢ in_use
      → force_bind_loop p fd ipv6 n port k w
        ≡ done (
          bind_result (p.orig_bind fd ipv6 (port + m)),
          with_binds w (tried fd ipv6 (suc m) port),
        )
  loop-first zero m port w h before here = absurd (omega arith)
  loop-first (suc n) zero port w h before here =
      let at : port + 0 ≡ port = omega arith in
      loop-last n port w (p.orig_bind fd ipv6 (port + 0)) (ap (p.orig_bind fd ipv6) (sym at)) here
  loop-first (suc n) (suc m) port w h before here =
      let at : port + 0 ≡ port = omega arith in
      let next : (port + 1) + m ≡ port + suc m = omega arith in
      let first = ap (p.orig_bind fd ipv6) (sym at) ∙ before 0 (omega arith) in
      let rest =
        loop-first n m (port + 1) (with_binds w ((fd, ipv6, port) ∷ [])) (omega arith)
          (λ i l. ap (p.orig_bind fd ipv6) (shift i) ∙ before (suc i) (omega arith))
          (subst (λ q. p.orig_bind fd ipv6 q ≢ in_use) (sym next) here) in
      loop-suc n port w first
      ∙ rest
      ∙ joined w (fd, ipv6, port) (tried fd ipv6 (suc m) (port + 1)) _
      ∙ ap
          (λ q.
            done (
              bind_result (p.orig_bind fd ipv6 q),
              with_binds w (tried fd ipv6 (suc (suc m)) port),
            ))
          next
    where
      shift : (i : ℕ) → (port + 1) + i ≡ port + suc i
      shift i = omega arith

  -- Where the first `m` ports from 32768 up are in use and the next one is not, up to 60999, exactly
  -- these ports have been tried, in their order; the result is 0 if the last one could be had, and -1
  -- if its `bind` has failed in another way.
  pub force_bind-first :
      (m : ℕ) (w : World)
      → m < port_count
      → ((i : ℕ) → i < m → p.orig_bind fd ipv6 (min_port + i) ≡ in_use)
      → p.orig_bind fd ipv6 (min_port + m) ≢ in_use
      → force_bind p fd ipv6 k w
        ≡ done (
          bind_result (p.orig_bind fd ipv6 (min_port + m)),
          with_binds w (tried fd ipv6 (suc m) min_port),
        )
  unfolding force_bind
  force_bind-first m w h before here = loop-first port_count m min_port w h before here
