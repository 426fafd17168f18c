-- ===== src/Spec/Heirs.antt =====
-- What a forked child has in place of its parent's sockets (sock_events.c and init.c).
use tcpsnitch.Base.{
  ℕ, zero, suc, ◌+◌, is_some, ◌<◌, ◌≤◌, ◌≡◌, ◌≢◌, refl, sym, ap, ◌∙◌, Bool, true, false, not,
  Option, none, some, List, [], ◌∷◌, arith, Bool-cases, inl, inr, if◌then◌else◌, ◌==◌, eqb→eq,
  eqb→ne,
}
use tcpsnitch.Outcome.{Returns, Returns-mono}
use tcpsnitch.Bytes.{Text}
use tcpsnitch.Event.{forked_socket, SockEvent, Socket}
use tcpsnitch.Registry.View.{peek, Idle}
use tcpsnitch.Registry.Update.{ra_get_size-Idle, peek-lt_size}
use tcpsnitch.Kernel.{Kernel}
use tcpsnitch.World.{World, M, pure}
use tcpsnitch.Init.{logger_init}
use tcpsnitch.Tracer.Dump.{sock_ev_reset, tcpsnitch_free, reset_tcpsnitch}
use tcpsnitch.Spec.{Abs, put-same, put-other, Shows}
use tcpsnitch.Spec.Fork.{
  Renewed, no_socket, new_socket, Restarted, all_done, one_more, restart-Restarted,
}

Renewed-other :
    {i n m : ℕ} {f g : ℕ → Option Socket} → Renewed i f n g m → (j : ℕ) → j ≢ i → g j ≡ f j
Renewed-other (no_socket _) j ne = refl
Renewed-other {i} {f = f} (new_socket {g = g} _ _ _) j ne = put-other i (some g) f j ne

Restarted-below :
    {size i n m : ℕ} {f g : ℕ → Option Socket}
    → Restarted size i f n g m
    → (j : ℕ) → j < i
    → g j ≡ f j
Restarted-below (all_done _) j h = refl
Restarted-below {i = i} (one_more _ first rest) j h =
    Restarted-below rest j (omega arith) ∙ Renewed-other first j (λ e. omega arith)

-- How many sockets a table has at the descriptors below one.
abbrev pub rank : (ℕ → Option Socket) → ℕ → ℕ
rank f zero = 0
rank f (suc j) = (if is_some (f j) then 1 else 0) + rank f j

-- What a child has in place of the socket `s` at `j`: a socket with the number `r`, below `m`, one event
-- of the type SOCK_EV_FORKED_SOCKET, and the information of `s`.
pub record IsHeir (m r j : ℕ) (s g : Socket) : Type 0 where
  pub fd_is : g.fd ≡ j
  pub numbered : g.id ≡ r
  pub counted : g.id < m
  pub info : g.sock_info ≡ s.sock_info
  pub first : SockEvent
  pub events_are : g.events ≡ first ∷ []
  pub first_type : first.type ≡ forked_socket

-- The tables `f` and `t` are alike from `i` on, and `n` sockets of `t` are below.
record Numbered (t : ℕ → Option Socket) (i n : ℕ) (f : ℕ → Option Socket) : Type 0 where
  alike : (j : ℕ) → i ≤ j → f j ≡ t j
  so_far : n ≡ rank t i

rank-next :
    (f : ℕ → Option Socket) (i : ℕ) (o : Option Socket)
    → f i ≡ o
    → rank f (i + 1) ≡ (if is_some o then 1 else 0) + rank f i
rank-next f i o e = ap (rank f) (next i) ∙ ap (λ o. (if is_some o then 1 else 0) + rank f i) e
  where
    next : (i : ℕ) → i + 1 ≡ suc i
    next i = omega arith

Renewed-Numbered :
    {i n m : ℕ} {t f g : ℕ → Option Socket}
    → Renewed i f n g m
    → Numbered t i n f
    → Numbered t (i + 1) m g
Renewed-Numbered {i} {t = t} {f = f} (no_socket e) h = record {
  alike = λ j l. h.alike j (omega arith);
  so_far = let before = h.so_far in let now = rank-next t i none (here ∙ e) in omega arith;
}
  where
    here : t i ≡ f i
    here = sym (h.alike i (omega arith))
Renewed-Numbered {i} {t = t} {f = f} (new_socket {s} {g} e _ _) h = record {
  alike = λ j l. put-other i (some g) f j (λ same. omega arith) ∙ h.alike j (omega arith);
  so_far = let before = h.so_far in let now = rank-next t i (some s) (here ∙ e) in omega arith;
}
  where
    here : t i ≡ f i
    here = sym (h.alike i (omega arith))

Restarted-counts : {size i n m : ℕ} {f g : ℕ → Option Socket} → Restarted size i f n g m → n ≤ m
Restarted-counts (all_done _) = omega arith
Restarted-counts (one_more _ (no_socket _) rest) = Restarted-counts rest
Restarted-counts (one_more _ (new_socket _ _ _) rest) = omega (arith, Restarted-counts rest)

IsHeir-of :
    {size i n m o r : ℕ} {f g h : ℕ → Option Socket} {s : Socket}
    → Renewed i f n g m
    → Restarted size (i + 1) g m h o
    → n ≡ r
    → f i ≡ some s
    → (x : Socket) × (h i ≡ some x) × IsHeir o r i s x
IsHeir-of (no_socket e) rest order found = absurd (no (sym e ∙ found))
  where
    no : {x : Socket} → none ≡ some x → ⊥
    no h = cc
IsHeir-of {i = i} {n = n} {o = o} {f = f} {s = s} (new_socket {s = t} {g = x} e new info) rest order
      found =
    (
      x,
      Restarted-below rest i (omega arith) ∙ put-same i (some x) f,
      record {
        fd_is = new.fd_is;
        numbered = new.id_is ∙ order;
        counted = below;
        info = info ∙ ap (λ y. y.sock_info) (some_of (sym e ∙ found));
        first = new.first;
        events_are = new.events_are;
        first_type = new.first_type;
      },
    )
  where
    some_of : {x y : Socket} → some x ≡ some y → x ≡ y
    some_of h = cc

    below : x.id < o
    below = let id = new.id_is in omega (arith, Restarted-counts rest)

Restarted-IsHeir :
    {size i n m : ℕ} {t f h : ℕ → Option Socket} (j : ℕ) {s : Socket}
    → Restarted size i f n h m
    → Numbered t i n f
    → i ≤ j
    → j < size
    → f j ≡ some s
    → (x : Socket) × (h j ≡ some x) × IsHeir m (rank t j) j s x
Restarted-IsHeir j (all_done over) order l b e = absurd (omega arith)
Restarted-IsHeir {t = t} j {s} (one_more {i} {m = m} {f = f} {h = h} less first rest) order l b e =
    elim (Bool-cases (j == i)) [
      | inl at ↦
          let same = eqb→eq j i at in
          rw same (IsHeir-of first rest order.so_far (ap f (sym same) ∙ e))
      | inr off ↦
          let ne = eqb→ne j i off in
          Restarted-IsHeir j rest (Renewed-Numbered first order) (after i j l ne) b
            (Renewed-other first j ne ∙ e)
    ]
  where
    after : (i j : ℕ) → i ≤ j → j ≢ i → i + 1 ≤ j
    after i j l ne = omega arith

Restarted-none :
    {size i n m : ℕ} {f h : ℕ → Option Socket} (j : ℕ)
    → Restarted size i f n h m
    → f j ≡ none
    → h j ≡ none
Restarted-none j (all_done _) e = e
Restarted-none j (one_more {i} {f = f} _ (no_socket _) rest) e = Restarted-none j rest e
Restarted-none j (one_more {i} {f = f} _ (new_socket {s = t} {g = x} here new info) rest) e =
    Restarted-none j rest (put-other i (some x) f j (λ same. no (sym e ∙ ap f same ∙ here)) ∙ e)
  where
    no : {y : Socket} → none ≡ some y → ⊥
    no h = cc

unless :
    {P : Unit {0} × World → Type 0} (k : Kernel) (w : World) (b : Bool) (m : M (Unit {0}))
    → b ≡ true
    → Returns P (m k w)
    → Returns P ((if not b then pure tt else m) k w)
unless k w true m e h = h
unless k w false m e h = absurd (no e)
  where
    no : false ≡ true → ⊥
    no h = cc

-- The state of a child whose parent was in the state `a` with the lines `lines`.
pub record IsChild (a : Abs) (lines : List (Text × SockEvent)) (v : World) : Type 0 where
  pub idle : Idle v.registry
  pub lines_kept : v.trace ≡ lines
  pub again : v.initialized ≡ false
  pub heirs :
      (j : ℕ) (s : Socket)
      → a.table j ≡ some s
      → (x : Socket) × (peek v.registry j ≡ some x)
        × IsHeir v.connections_count (rank a.table j) j s x
  pub no_others : (j : ℕ) → a.table j ≡ none → peek v.registry j ≡ none

-- In a forked child of a process whose library is initialized, the new start ends without a fault
-- and leaves no lock: each socket of the parent has an heir at its descriptor, with its information and
-- one event, under the number of sockets that the parent has at lower descriptors; no other socket is
-- there; no line is written, and the library is to start again with the next call.
pub reset_tcpsnitch-IsChild :
    (k : Kernel) {a : Abs} {w : World}
    → w.initialized ≡ true
    → Shows a w
    → Returns (λ (_, v). IsChild a w.trace v) (reset_tcpsnitch k w)
unfolding reset_tcpsnitch sock_ev_reset tcpsnitch_free logger_init
reset_tcpsnitch-IsChild k {a} {w} e s = unless k w w.initialized _ e (
    rw (ra_get_size-Idle w.registry s.idle) (
      Returns-mono
        (restart-Restarted k (suc w.registry.size) 0 w.registry.size (omega arith) refl (record {
          idle = s.idle;
          table = s.table;
          count = refl;
          lines_kept = refl;
          again = refl;
        }))
        (λ (_, v) (g, m, how, after). record {
          idle = after.idle;
          lines_kept = after.lines_kept;
          again = after.again;
          heirs = λ j x found.
              let b = peek-lt_size w.registry j s.idle (s.table j ∙ found) in
              let (y, at, heir) =
                Restarted-IsHeir j how (record { alike = λ j _. refl; so_far = refl }) (omega arith)
                  b found in
              (y, after.table j ∙ at, rw after.count heir);
          no_others = λ j found. after.table j ∙ Restarted-none j how found;
        })))
