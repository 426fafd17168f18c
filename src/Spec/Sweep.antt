-- ===== src/Spec/Sweep.antt =====
-- `dump_all_sock_events` of sock_events.c: the events of all sockets are written out.
use tcpsnitch.Base.{
  ◌≢◌, Option, some, ℕ, zero, suc, ◌+◌, ◌<◌, ◌≤◌, ◌≡◌, refl, subst, ◌∙◌, none, List, arith, ltb,
  ltb→lt, Bool-cases, Option-cases, inl, inr,
}
use tcpsnitch.Outcome.{Returns, returns, Returns-bind, Returns-mono}
use tcpsnitch.Bytes.{Text}
use tcpsnitch.Event.{SockEvent, Socket}
use tcpsnitch.Registry.Update.{peek-lt_size}
use tcpsnitch.Kernel.{Kernel}
use tcpsnitch.World.{World}
use tcpsnitch.Tracer.Dump.{dump_locked, dump_socket_at, dump_from, dump_all_sock_events}
use tcpsnitch.Spec.{put-other, Abs, with_socket, Shows, ShowsHeld}
use tcpsnitch.Spec.Table.{
  Fixed, Fixed-refl, Fixed-trans, is_present-Shows, get_size-Shows, get-Shows_sized,
  modify-ShowsHeld_sized, unlock-ShowsHeld_sized,
}
use tcpsnitch.Spec.Dump.{Serialises, Written, dump_events-Written}

-- All sockets of a table are below `n`.
pub record IsBound (table : ℕ → Option Socket) (n : ℕ) : Type 0 where
  pub below : (j : ℕ) (s : Socket) → table j ≡ some s → j < n

-- What a round for the descriptor `i` does.
pub data Emptied (k : Kernel) (dir : Option Text) (i : ℕ) (a : Abs) : Abs → Type 0 where
  skipped : a.table i ≡ none → Emptied k dir i a a
  emptied :
      {s t : Socket} {after : List (Text × SockEvent)}
      → a.table i ≡ some s
      → Written k dir s a.lines after t
      → Emptied k dir i a (record (with_socket i (some t) a) { lines = after })

-- The rounds for the descriptors from `i` up to `n`.
pub data Swept (k : Kernel) (dir : Option Text) (n : ℕ) : ℕ → Abs → Abs → Type 0 where
  over : {i : ℕ} {a : Abs} → n ≤ i → Swept k dir n i a a
  next :
      {i : ℕ} {a b c : Abs}
      → i < n
      → Emptied k dir i a b
      → Swept k dir n (i + 1) b c
      → Swept k dir n i a c

module _ (k : Kernel) (json : Serialises k) where
  dump_locked-Held :
      {a : Abs} {w : World} (i : ℕ) (s : Socket)
      → a.table i ≡ some s
      → ShowsHeld i a w
      → Returns
          (λ (_, v). (b : Abs) × Emptied k w.logs_dir_path i a b × ShowsHeld i b v × Fixed w v)
          (dump_locked i (some s) k w)
  unfolding dump_locked
  dump_locked-Held {a} {w} i s e held =
      Returns-bind (dump_events-Written k json s w held.alive) λ (t, w1) (after, how, same).
        let h1 : ShowsHeld i (record a { lines = after }) w1 = rw same (record {
          held = held.held;
          table = held.table;
          count = held.count;
          lines = refl;
          alive = held.alive;
        }) in
        Returns-mono (modify-ShowsHeld_sized k h1 (λ _. t) e) (λ (_, v) (h2, fixed). (
          _,
          emptied e (rw⁻¹ held.lines how),
          h2,
          Fixed-trans (rw same (record { size = refl; dir = refl })) fixed,
        ))

  round-Emptied :
      {a : Abs} {w : World} (i : ℕ)
      → Shows a w
      → Returns
          (λ (_, v). (b : Abs) × Emptied k w.logs_dir_path i a b × Shows b v × Fixed w v)
          (dump_socket_at i k w)
  unfolding dump_socket_at
  round-Emptied {a} {w} i s = elim (Option-cases (a.table i)) [
    | inl e ↦ rw (is_present-Shows k s i, e) (returns (a, skipped e, s, Fixed-refl w))
    | inr (x, e) ↦
        rw (is_present-Shows k s i, e)
          (Returns-bind (get-Shows_sized k s i e) λ (o, w1) ((got, held), z1). rw got (
            Returns-bind (dump_locked-Held i x e held) λ (_, w2) (b, how, h2, z2).
              Returns-mono (unlock-ShowsHeld_sized k h2) (λ (_, v) (s3, z3). (
                b,
                subst (λ dir. Emptied k dir i a b) z1.dir how,
                s3,
                Fixed-trans z1 (Fixed-trans z2 z3),
              ))))
  ]

  sweep-Swept :
      (rounds i : ℕ) {a : Abs} {w : World} (n : ℕ)
      → n < i + rounds
      → w.registry.size ≡ n
      → Shows a w
      → Returns
          (λ (_, v). (b : Abs) × Swept k w.logs_dir_path n i a b × Shows b v)
          (dump_from rounds i k w)
  unfolding dump_from
  sweep-Swept zero i n h z s = returns (_, over (omega arith), s)
  sweep-Swept (suc rounds) i {a} {w} n h z s = elim (Bool-cases (ltb i w.registry.size)) [
    | inl b ↦
        rw (get_size-Shows k s, b)
          (Returns-bind (round-Emptied i s) λ (_, v) (c, how, s1, z1).
            Returns-mono (sweep-Swept rounds (i + 1) n (omega arith) (z1.size ∙ z) s1)
              (λ (_, u) (d, rest, s2). (
                d,
                next (omega (arith, ltb→lt i w.registry.size b)) how
                    (subst (λ dir. Swept k dir n (i + 1) c d) z1.dir rest),
                s2,
              )))
    | inr b ↦ rw (get_size-Shows k s, b) (returns (a, over (ground arith), s))
  ]

  -- `dump_all_sock_events` ends without a fault and leaves no lock: it goes once through the
  -- descriptors from 0 up to a bound above all sockets, and writes out each socket that it meets, if
  -- its file can be had; where every event can be made a JSON text and the directory of the traces
  -- has not been freed.
  pub dump_all-Swept :
      {a : Abs} {w : World}
      → Shows a w
      → Returns
          (λ (_, v).
            (n : ℕ) × (b : Abs) × Swept k w.logs_dir_path n 0 a b × Shows b v × IsBound a.table n)
          (dump_all_sock_events k w)
  unfolding dump_all_sock_events
  dump_all-Swept {a} {w} s = rw (get_size-Shows k s) (
      Returns-mono (sweep-Swept (suc w.registry.size) 0 w.registry.size (omega arith) refl s)
        (λ (_, v) (b, swept, s1). (
          w.registry.size,
          b,
          swept,
          s1,
          record { below = λ j x e. peek-lt_size w.registry j s.idle (s.table j ∙ e) },
        )))

module _ {k : Kernel} where
  pub Emptied-other :
      {dir : Option Text} {i : ℕ} {a b : Abs}
      → Emptied k dir i a b
      → (j : ℕ) → j ≢ i
      → b.table j ≡ a.table j
  Emptied-other (skipped _) j ne = refl
  Emptied-other {i} {a} (emptied {t = t} _ _) j ne = put-other i (some t) a.table j ne

  pub Swept-below :
      {dir : Option Text} {n i : ℕ} {a b : Abs}
      → Swept k dir n i a b
      → (j : ℕ) → j < i
      → b.table j ≡ a.table j
  Swept-below (over _) j h = refl
  Swept-below {i = i} (next _ first rest) j h =
      Swept-below rest j (omega arith) ∙ Emptied-other first j (λ e. omega arith)
