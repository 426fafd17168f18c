-- ===== src/Spec/Drain.antt =====
-- Every event that sock_events.c has recorded is written with the next sweep over the table.
use tcpsnitch.Base.{
  ℕ, ◌<◌, ◌≤◌, ◌≡◌, refl, sym, ap, subst, ◌∙◌, Bool, true, false, Option, none, some, inl, inr,
  List, [], ◌∷◌, ◌++◌, arith, Bool-cases, ◌==◌, eqb→eq, eqb→ne,
}
use tcpsnitch.Outcome.{Returns, Returns-mono}
use tcpsnitch.Bytes.{Text}
use tcpsnitch.Event.{SockEvent, Socket}
use tcpsnitch.Kernel.{Kernel}
use tcpsnitch.World.{World}
use tcpsnitch.Tracer.Dump.{dump_all_sock_events}
use tcpsnitch.Spec.{Abs, put-same, Shows}
use tcpsnitch.Spec.Dump.{Serialises, opens, file_of, lines_of, Written, written, no_file}
use tcpsnitch.Spec.Sweep.{IsBound, Emptied, skipped, emptied, Swept, over, next, dump_all-Swept}
use tcpsnitch.Spec.Sweep.{Emptied-other, Swept-below}

pub data Occurs {ℓ} {A : Type ℓ} (x : A) : List A → Type ℓ where
  first : {xs : List A} → Occurs x (x ∷ xs)
  later : {y : A} {xs : List A} → Occurs x xs → Occurs x (y ∷ xs)

module _ {ℓ} {A : Type ℓ} {x : A} where
  Occurs-left : {xs : List A} (ys : List A) → Occurs x xs → Occurs x (xs ++ ys)
  Occurs-left ys first = first
  Occurs-left ys (later o) = later (Occurs-left ys o)

  Occurs-right : (xs : List A) {ys : List A} → Occurs x ys → Occurs x (xs ++ ys)
  Occurs-right [] o = o
  Occurs-right (y ∷ xs) o = later (Occurs-right xs o)

Occurs-lines_of :
    (path : Text) {ev : SockEvent} {evs : List SockEvent}
    → Occurs ev evs
    → Occurs (path, ev) (lines_of path evs)
Occurs-lines_of path first = first
Occurs-lines_of path (later o) = later (Occurs-lines_of path o)

-- That an event is a line of the file of a socket's number.
pub record IsLine (dir : Option Text) (id : ℕ) (ev : SockEvent) (lines : List (Text × SockEvent))
    : Type 0 where
  pub path : Text
  pub file_is : file_of dir id ≡ some path
  pub line : Occurs (path, ev) lines

-- No event waits any more, and each that has waited is a line of its socket's file.
pub record Drained (dir : Option Text) (a b : Abs) : Type 0 where
  pub none_waits : (j : ℕ) (s : Socket) → b.table j ≡ some s → s.events ≡ []
  pub all_out :
      (j : ℕ) (s : Socket) (ev : SockEvent)
      → a.table j ≡ some s
      → Occurs ev s.events
      → IsLine dir s.id ev b.lines

no_socket : {s : Socket} → none ≡ some s → ⊥
no_socket h = cc

same_socket : {s t : Socket} → some s ≡ some t → s ≡ t
same_socket h = cc

not_both : (b : Bool) → b ≡ true → b ≡ false → ⊥
not_both true h e = cc
not_both false h e = cc

module _ {k : Kernel} {dir : Option Text} (can : (id : ℕ) → opens k dir id ≡ true) where
  Written-empty :
      {s t : Socket} {before after : List (Text × SockEvent)}
      → Written k dir s before after t
      → t.events ≡ []
  Written-empty (written _ _) = refl
  Written-empty {s} (no_file e) = absurd (not_both (opens k dir s.id) (can s.id) e)

  Written-IsLine :
      {s t : Socket} {before after : List (Text × SockEvent)} {ev : SockEvent}
      → Written k dir s before after t
      → Occurs ev s.events
      → IsLine dir s.id ev after
  Written-IsLine {before = before} (written path e) o = record {
    path = path;
    file_is = e;
    line = Occurs-right before (Occurs-lines_of path o);
  }
  Written-IsLine {s} (no_file e) o = absurd (not_both (opens k dir s.id) (can s.id) e)

  IsLine-Emptied :
      {i id : ℕ} {ev : SockEvent} {a b : Abs}
      → Emptied k dir i a b
      → IsLine dir id ev a.lines
      → IsLine dir id ev b.lines
  IsLine-Emptied (skipped _) l = l
  IsLine-Emptied (emptied {s} _ (written path _)) l = record {
    path = l.path;
    file_is = l.file_is;
    line = Occurs-left (lines_of path s.events) l.line;
  }
  IsLine-Emptied (emptied _ (no_file _)) l = l

  IsLine-Swept :
      {n i id : ℕ} {ev : SockEvent} {a b : Abs}
      → Swept k dir n i a b
      → IsLine dir id ev a.lines
      → IsLine dir id ev b.lines
  IsLine-Swept (over _) l = l
  IsLine-Swept (next _ one rest) l = IsLine-Swept rest (IsLine-Emptied one l)

  Emptied-empty :
      {i : ℕ} {a b : Abs} {s : Socket} → Emptied k dir i a b → b.table i ≡ some s → s.events ≡ []
  Emptied-empty (skipped e) h = absurd (no_socket (sym e ∙ h))
  Emptied-empty {i} {a} (emptied {t = t} _ how) h =
      ap (λ x. x.events) (sym (same_socket (sym (put-same i (some t) a.table) ∙ h)))
      ∙ Written-empty how

  Emptied-IsLine :
      {i : ℕ} {a b : Abs} {s : Socket} {ev : SockEvent}
      → Emptied k dir i a b
      → a.table i ≡ some s
      → Occurs ev s.events
      → IsLine dir s.id ev b.lines
  Emptied-IsLine (skipped e) h o = absurd (no_socket (sym e ∙ h))
  Emptied-IsLine {i} {a} {b} {ev = ev} (emptied {s} e how) h o =
      subst (λ x. Occurs ev x.events → IsLine dir x.id ev b.lines) (same_socket (sym e ∙ h))
        (Written-IsLine how) o

  Swept-empty :
      {n i : ℕ} {a b : Abs}
      → Swept k dir n i a b
      → (j : ℕ) (s : Socket) → i ≤ j
      → j < n
      → b.table j ≡ some s
      → s.events ≡ []
  Swept-empty (over h) j s l u e = absurd (omega arith)
  Swept-empty {i = i} {b = b} (next _ one rest) j s l u e = elim (Bool-cases (j == i)) [
    | inl same ↦
        let at = eqb→eq j i same in
        Emptied-empty one (sym (Swept-below rest i (omega arith)) ∙ ap b.table (sym at) ∙ e)
    | inr other ↦ let apart = eqb→ne j i other in Swept-empty rest j s (ground arith) u e
  ]

  Swept-IsLine :
      {n i : ℕ} {a b : Abs}
      → Swept k dir n i a b
      → (j : ℕ) (s : Socket) (ev : SockEvent) → i ≤ j
      → j < n
      → a.table j ≡ some s
      → Occurs ev s.events
      → IsLine dir s.id ev b.lines
  Swept-IsLine (over h) j s ev l u e o = absurd (omega arith)
  Swept-IsLine {i = i} (next {a} _ one rest) j s ev l u e o = elim (Bool-cases (j == i)) [
    | inl same ↦ IsLine-Swept rest (Emptied-IsLine one (ap a.table (sym (eqb→eq j i same)) ∙ e) o)
    | inr other ↦
        let apart = eqb→ne j i other in
        Swept-IsLine rest j s ev (ground arith) u (Emptied-other one j apart ∙ e) o
  ]

  Emptied-keys :
      {i : ℕ} {a b : Abs} {s : Socket}
      → Emptied k dir i a b
      → (j : ℕ) → b.table j ≡ some s
      → (t : Socket) × (a.table j ≡ some t)
  Emptied-keys (skipped _) j h = (_, h)
  Emptied-keys {i} {a} (emptied {s} e how) j h = elim (Bool-cases (j == i)) [
    | inl same ↦ (s, ap a.table (eqb→eq j i same) ∙ e)
    | inr other ↦ (_, sym (Emptied-other {a = a} (emptied e how) j (eqb→ne j i other)) ∙ h)
  ]

  Swept-keys :
      {n i : ℕ} {a b : Abs} {s : Socket}
      → Swept k dir n i a b
      → (j : ℕ) → b.table j ≡ some s
      → (t : Socket) × (a.table j ≡ some t)
  Swept-keys (over _) j h = (_, h)
  Swept-keys (next _ one rest) j h = let (t, e) = Swept-keys rest j h in Emptied-keys one j e

  pub Swept-Drained :
      {n : ℕ} {a b : Abs} → Swept k dir n 0 a b → IsBound a.table n → Drained dir a b
  Swept-Drained swept bound = record {
    none_waits = λ j s e.
        let (t, there) = Swept-keys swept j e in
        Swept-empty swept j s (omega arith) (bound.below j t there) e;
    all_out = λ j s ev e o. Swept-IsLine swept j s ev (omega arith) (bound.below j s e) e o;
  }

-- Where the file of every socket can be had, `dump_all_sock_events` ends without a fault and leaves no
-- lock, no event waits in a socket any more, and each event that has waited is a line of the file of
-- its socket; where every event can be made a JSON text.
pub dump_all-Drained :
    (k : Kernel)
    → Serialises k
    → {a : Abs} {w : World} → Shows a w
    → ((id : ℕ) → opens k w.logs_dir_path id ≡ true)
    → Returns
        (λ (_, v). (b : Abs) × Shows b v × Drained w.logs_dir_path a b)
        (dump_all_sock_events k w)
dump_all-Drained k json shows can =
    Returns-mono (dump_all-Swept k json shows)
      (λ (_, v) (n, b, swept, after, bound). (b, after, Swept-Drained can swept bound))
