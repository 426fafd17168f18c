-- ===== src/Spec/Fork.antt =====
-- The new start in a forked child: `reset_tcpsnitch` of init.c and `sock_ev_reset` of sock_events.c.
use tcpsnitch.Base.{
  ℕ, zero, suc, ◌+◌, ◌<◌, ◌≤◌, ◌≡◌, refl, ap, ◌∙◌, false, Option, none, some, List, arith, ltb,
  ltb→lt, Bool-cases, Option-cases, inl, inr, if◌then◌else◌, ◌==◌,
}
use tcpsnitch.Outcome.{Returns, returns, Returns-bind, Returns-mono, Returns-both}
use tcpsnitch.Bytes.{Text}
use tcpsnitch.Event.Kinds.{kind}
use tcpsnitch.Event.{forked_socket, SockInfo, SockEvent, Socket}
use tcpsnitch.Registry.{ra_remove_elem, ra_put_elem}
use tcpsnitch.Registry.View.{peek, Idle}
use tcpsnitch.Registry.Update.{
  ra_is_present-peek, ra_remove_elem-peek, ra_put_elem-peek, ra_get_size-Idle,
}
use tcpsnitch.Registry.Sizes.{ra_remove_elem-size, ra_put_elem-size}
use tcpsnitch.Kernel.{Kernel}
use tcpsnitch.World.{World, on_registry, get_time_micros}
use tcpsnitch.Sockets.{alloc_socket, alloc_event, push_event, sock_ev_forked_socket}
use tcpsnitch.Tracer.Dump.{restart_with, restart_socket_at, restart_from}
use tcpsnitch.Spec.{put, put-put}
use tcpsnitch.Spec.Start.{IsNew}

-- The state during the new start: `f` is the table, `n` sockets have been numbered.
pub record Starting (f : ℕ → Option Socket) (n : ℕ) (lines : List (Text × SockEvent)) (w : World)
    : Type 0 where
  pub idle : Idle w.registry
  pub table : (j : ℕ) → peek w.registry j ≡ f j
  pub count : w.connections_count ≡ n
  pub lines_kept : w.trace ≡ lines
  pub again : w.initialized ≡ false

-- A round for the descriptor `i`.
pub data Renewed (i : ℕ) (f : ℕ → Option Socket) (n : ℕ) : (ℕ → Option Socket) → ℕ → Type 0 where
  no_socket : f i ≡ none → Renewed i f n f n
  new_socket :
      {s g : Socket}
      → f i ≡ some s
      → IsNew forked_socket n i g
      → g.sock_info ≡ s.sock_info
      → Renewed i f n (put i (some g) f) (suc n)

-- The rounds for the descriptors from `i` up to `size`.
pub data Restarted (size : ℕ) : ℕ → (ℕ → Option Socket) → ℕ → (ℕ → Option Socket) → ℕ → Type 0 where
  all_done : {i n : ℕ} {f : ℕ → Option Socket} → size ≤ i → Restarted size i f n f n
  one_more :
      {i n m o : ℕ} {f g h : ℕ → Option Socket}
      → i < size
      → Renewed i f n g m
      → Restarted size (i + 1) g m h o
      → Restarted size i f n h o

module _ (k : Kernel) where
  put-Starting :
      {f : ℕ → Option Socket} {n : ℕ} {lines : List (Text × SockEvent)} {w : World} (i : ℕ)
      (x : Socket)
      → i < w.registry.size
      → Starting f n lines w
      → Returns
          (λ (_, v). Starting (put i (some x) f) n lines v × (v.registry.size ≡ w.registry.size))
          (on_registry (ra_put_elem i x) k w)
  put-Starting {f} {w = w} i x h s =
      Returns-bind
        (Returns-both (ra_put_elem-peek w.registry i x s.idle)
          (ra_put_elem-size w.registry i x s.idle h))
        λ (_, r) ((_, idle, view), size). returns (
          record {
            idle = idle;
            table = λ j. view j ∙ ap (λ o. if j == i then some x else o) (s.table j);
            count = s.count;
            lines_kept = s.lines_kept;
            again = s.again;
          },
          size,
        )

  forked-Starting :
      {f : ℕ → Option Socket} {n : ℕ} {lines : List (Text × SockEvent)} {w : World} (i : ℕ)
      (info : SockInfo)
      → i < w.registry.size
      → Starting f n lines w
      → Returns
          (λ (_, v).
            ((g : Socket) × IsNew forked_socket n i g
              × (g.sock_info ≡ info)
              × Starting (put i (some g) f) (suc n) lines v)
            × (v.registry.size ≡ w.registry.size))
          (sock_ev_forked_socket i info k w)
  unfolding kind sock_ev_forked_socket alloc_socket push_event alloc_event get_time_micros
  forked-Starting {f} {n} {lines} {w} i info h s =
      Returns-bind (put-Starting i _ h (counted s)) λ (_, v) (after, size). returns (
        (
          _,
          record {
            id_is = s.count;
            fd_is = refl;
            counted = refl;
            sent = refl;
            received = refl;
            first = _;
            events_are = refl;
            first_type = refl;
            first_whole = (refl, tt);
            first_id = refl;
          },
          refl,
          after,
        ),
        size,
      )
    where
      counted :
          Starting f n lines w
          → Starting f
              (suc n)
              lines
              (record w { connections_count = suc w.connections_count; clock = suc w.clock })
      counted t = record {
        idle = t.idle;
        table = t.table;
        count = ap suc t.count;
        lines_kept = t.lines_kept;
        again = t.again;
      }

  remove-Starting :
      {f : ℕ → Option Socket} {n : ℕ} {lines : List (Text × SockEvent)} {w : World} (i : ℕ)
      → Starting f n lines w
      → Returns
          (λ (o, v).
            ((o ≡ f i) × Starting (put i none f) n lines v) × (v.registry.size ≡ w.registry.size))
          (on_registry (ra_remove_elem i) k w)
  remove-Starting {f} {w = w} i s =
      Returns-bind
        (Returns-both (ra_remove_elem-peek w.registry i s.idle)
          (ra_remove_elem-size w.registry i s.idle))
        λ (o, r) ((was, idle, view), size). returns (
          (
            was ∙ s.table i,
            record {
              idle = idle;
              table = λ j. view j ∙ ap (λ o. if j == i then none else o) (s.table j);
              count = s.count;
              lines_kept = s.lines_kept;
              again = s.again;
            },
          ),
          size,
        )

  retable :
      {f g : ℕ → Option Socket} {n : ℕ} {lines : List (Text × SockEvent)} {w : World}
      → ((j : ℕ) → f j ≡ g j)
      → Starting f n lines w
      → Starting g n lines w
  retable same s = record {
    idle = s.idle;
    table = λ j. s.table j ∙ same j;
    count = s.count;
    lines_kept = s.lines_kept;
    again = s.again;
  }

  round-Renewed :
      {f : ℕ → Option Socket} {n : ℕ} {lines : List (Text × SockEvent)} {w : World} (i : ℕ)
      → i < w.registry.size
      → Starting f n lines w
      → Returns
          (λ (_, v).
            ((g : ℕ → Option Socket) × (m : ℕ) × Renewed i f n g m × Starting g m lines v)
            × (v.registry.size ≡ w.registry.size))
          (restart_socket_at i k w)
  unfolding restart_socket_at restart_with
  round-Renewed {f} {n} {w = w} i h s = elim (Option-cases (f i)) [
    | inl e ↦
        rw (ra_is_present-peek w.registry i s.idle, s.table i, e)
          (returns ((f, n, no_socket e, s), refl))
    | inr (x, e) ↦
        rw (ra_is_present-peek w.registry i s.idle, s.table i, e)
          (Returns-bind (remove-Starting i s) λ (o, w1) ((was, s1), z1).
            rw (was, e)
              (Returns-mono (forked-Starting i x.sock_info (rw z1 h) s1)
                (λ (_, v) ((g, new, info, s2), z2). (
                  (_, _, new_socket e new info, retable (put-put i (some g) none f) s2),
                  z2 ∙ z1,
                ))))
  ]

  pub restart-Restarted :
      (rounds i size : ℕ) {f : ℕ → Option Socket} {n : ℕ} {lines : List (Text × SockEvent)}
      {w : World}
      → size < i + rounds
      → w.registry.size ≡ size
      → Starting f n lines w
      → Returns
          (λ (_, v).
            (g : ℕ → Option Socket) × (m : ℕ) × Restarted size i f n g m × Starting g m lines v)
          (restart_from rounds i k w)
  unfolding restart_from
  restart-Restarted zero i size h z s = returns (_, _, all_done (omega arith), s)
  restart-Restarted (suc rounds) i size {w = w} h z s = elim (Bool-cases (ltb i w.registry.size)) [
    | inl b ↦
        rw (ra_get_size-Idle w.registry s.idle, b)
          (Returns-bind (round-Renewed i (ltb→lt i w.registry.size b) s)
            λ (_, v) ((g, m, how, s1), z1).
              Returns-mono (restart-Restarted rounds (i + 1) size (omega arith) (z1 ∙ z) s1)
                (λ (_, u) (g', m', rest, s2).
                  (g', m', one_more (omega (arith, ltb→lt i w.registry.size b)) how rest, s2)))
    | inr b ↦
        rw (ra_get_size-Idle w.registry s.idle, b) (returns (_, _, all_done (ground arith), s))
  ]
