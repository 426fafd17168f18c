-- ===== src/Spec/Capturing.antt =====
-- What the start of a capture (sock_events.c) does to the table of sockets.
use tcpsnitch.Base.{
  ℕ, zero, suc, ◌+◌, ◌≡◌, ◌⊎◌, refl, Bool, false, ◌&&◌, Option, none, some, inl, inr, List, [], ◌∷◌,
  ◌++◌, ◌==◌, Bool-cases, Option-cases,
}
use tcpsnitch.Outcome.{done, fault, bad_unlock, Returns, returns, Returns-bind, Returns-mono}
use tcpsnitch.Bytes.{Text}
use tcpsnitch.Text.{codes, decimal, alloc_concat_path}
use tcpsnitch.Text.Paths.{alloc_file_name-path}
use tcpsnitch.Event.{Socket}
use tcpsnitch.Kernel.{Kernel}
use tcpsnitch.CLib.{af_inet6}
use tcpsnitch.World.{World, lift}
use tcpsnitch.Capture.{family, alloc_capture_filter}
use tcpsnitch.Capture.Start.{Sniffer, BindAnswer, bound, in_use, not_bound, start_capture}
use tcpsnitch.Sockets.{alloc_pcap_path_str}
use tcpsnitch.Tracer.Capture.{
  call_bind, force_bind_loop, force_bind, bind_first, addr_from, capture_to, capture_locked,
  sock_start_capture, port_count, min_port,
}
use tcpsnitch.Spec.{Abs, with_socket, Shows, ShowsHeld}
use tcpsnitch.Spec.Table.{
  get-Shows, get-Shows_none, modify-ShowsHeld, unlock-ShowsHeld, unlock-Shows_none,
}

-- The state in which the socket of `fd` has another capture, or the same one.
pub data Switched (fd : ℕ) (a : Abs) : Abs → Type 0 where
  unswitched : Switched fd a a
  switched :
      {s : Socket} (flag : Option ℕ)
      → a.table fd ≡ some s
      → Switched fd a (with_socket fd (some (record s { capture_switch = flag })) a)

BindAnswer-cases : (b : BindAnswer) → (b ≡ bound) ⊎ ((b ≡ in_use) ⊎ (b ≡ not_bound))
BindAnswer-cases bound = inl refl
BindAnswer-cases in_use = inr (inl refl)
BindAnswer-cases not_bound = inr (inr refl)

pcap_path-alive :
    (w : World) (s : Socket)
    → w.logs_dir_freed ≡ false
    → alloc_pcap_path_str w s
      ≡ done (alloc_concat_path w.logs_dir_path (some (decimal s.id ++ codes ".pcap")))
unfolding alloc_pcap_path_str
pcap_path-alive w s e =
    let path = alloc_file_name-path w.logs_dir_path s.id (codes ".pcap") in rw (e, path) refl

module _ (k : Kernel) (p : Sniffer) {fd : ℕ} {a : Abs} where
  start-Held :
      (filter path : Text) {w : World}
      → ShowsHeld fd a w
      → Returns (λ (_, v). ShowsHeld fd a v) (start_capture p filter path k w)
  unfolding start_capture
  start-Held filter path h =
      elim (Bool-cases (
        p.pcap_open_live
        && (p.pcap_compile filter
            && (p.pcap_setfilter
                && (p.pcap_setnonblock && (p.pcap_dump_open path && k.pthread_create)))))) [
                  | inl e ↦ rw e (
                      returns (record {
                        held = h.held;
                        table = h.table;
                        count = h.count;
                        lines = h.lines;
                        alive = h.alive;
                      }))
                  | inr e ↦ rw e (returns h)
                ]

  binds-Held :
      {w : World} (b : List (ℕ × Bool × ℕ))
      → ShowsHeld fd a w
      → ShowsHeld fd a (record w { binds = b })
  binds-Held b h = record {
    held = h.held;
    table = h.table;
    count = h.count;
    lines = h.lines;
    alive = h.alive;
  }

  force_bind_loop-Held :
      (ipv6 : Bool) (n port : ℕ) {w : World}
      → ShowsHeld fd a w
      → Returns (λ (_, v). ShowsHeld fd a v) (force_bind_loop p fd ipv6 n port k w)
  unfolding force_bind_loop call_bind
  force_bind_loop-Held ipv6 zero port h = returns h
  force_bind_loop-Held ipv6 (suc n) port {w} h =
      let h1 = binds-Held (w.binds ++ (fd, ipv6, port) ∷ []) h in
      elim (BindAnswer-cases (p.orig_bind fd ipv6 port)) [
        | inl e ↦ rw (e, force_bind_loop) (returns h1)
        | inr (inl e) ↦ rw (e, force_bind_loop) (force_bind_loop-Held ipv6 n (port + 1) h1)
        | inr (inr e) ↦ rw (e, force_bind_loop) (returns h1)
      ]

  bind_first-Held :
      (s : Socket) (addr : Text) {w : World}
      → ShowsHeld fd a w
      → Returns (λ (_, v). ShowsHeld fd a v) (bind_first p fd s addr k w)
  unfolding bind_first force_bind
  bind_first-Held s addr h = elim (Bool-cases s.bound) [
    | inl e ↦ rw e (returns h)
    | inr e ↦ rw e (
        Returns-bind (force_bind_loop-Held (family addr == af_inet6) port_count min_port h)
          λ (_, v) h1. returns h1)
  ]

  capture_to-Held :
      (s : Socket) (addr : Text) (path : Option Text) {w : World}
      → a.table fd ≡ some s
      → ShowsHeld fd a w
      → Returns
          (λ (_, v). (b : Abs) × Switched fd a b × ShowsHeld fd b v)
          (capture_to p fd s addr path k w)
  unfolding capture_to
  capture_to-Held s addr none e h = returns (a, unswitched, h)
  capture_to-Held s addr (some path) e h =
      elim (Option-cases (alloc_capture_filter p.inet_ntop (addr_from s) addr)) [
        | inl f ↦ rw (f, capture_to) (returns (a, unswitched, h))
        | inr (filter, f) ↦
            rw (f, capture_to)
              (Returns-bind (start-Held filter path h) λ (flag, v) h1.
                Returns-mono (modify-ShowsHeld k h1 (λ x. record x { capture_switch = flag }) e)
                  (λ (_, u) h2. (_, switched flag e, h2)))
      ]

  path-Alive :
      (s : Socket) {w : World}
      → ShowsHeld fd a w
      → Returns (λ (_, v). ShowsHeld fd a v) (lift (alloc_pcap_path_str w s) k w)
  path-Alive s {w} h = rw (pcap_path-alive w s h.alive) (returns h)

  capture_locked-Held :
      (s : Socket) (addr : Text) {w : World}
      → a.table fd ≡ some s
      → ShowsHeld fd a w
      → Returns
          (λ (_, v). (b : Abs) × Switched fd a b × ShowsHeld fd b v)
          (capture_locked p fd addr (some s) k w)
  unfolding capture_locked
  capture_locked-Held s addr e h =
      Returns-bind (bind_first-Held s addr h) λ (_, w1) h1.
        Returns-bind (path-Alive s h1) λ (path, w2) h2. capture_to-Held s addr path e h2

  -- The capture of a known socket changes at most its flag, and leaves no lock.
  pub sock_start_capture-Switched :
      (s : Socket) (addr : Text) {w : World}
      → a.table fd ≡ some s
      → Shows a w
      → Returns
          (λ (_, v). (b : Abs) × Switched fd a b × Shows b v)
          (sock_start_capture p fd addr k w)
  unfolding sock_start_capture
  sock_start_capture-Switched s addr e shows =
      Returns-bind (get-Shows k shows fd e) λ (o, w1) (got, h). rw got (
        Returns-bind (capture_locked-Held s addr e h)
          λ (_, w2) (b, how, h1). Returns-mono (unlock-ShowsHeld k h1) (λ (_, v) s1. (b, how, s1)))

-- The capture of a socket that is not known ends with the release of a lock that is not held.
pub sock_start_capture-none :
    (k : Kernel) (p : Sniffer) (fd : ℕ) (addr : Text) {a : Abs} {w : World}
    → a.table fd ≡ none
    → Shows a w
    → sock_start_capture p fd addr k w ≡ fault bad_unlock
unfolding sock_start_capture capture_locked
sock_start_capture-none k p fd addr e shows =
    rw (get-Shows_none k shows fd e, unlock-Shows_none k shows fd e) refl
