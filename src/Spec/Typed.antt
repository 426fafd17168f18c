-- ===== src/Spec/Typed.antt =====
-- The events of sock_events.c: what reads one by its type finds the structure of this type, and blocks
-- that are as long as it takes them for.
use tcpsnitch.Base.{
  Option, ℕ, suc, ◌≡◌, refl, sym, ap, ◌∙◌, subst, ℤ, none, some, inl, inr, List, [], ◌∷◌, ◌++◌,
}
use tcpsnitch.Outcome.{Returns, Returns-mono}
use tcpsnitch.Bytes.{Text}
use tcpsnitch.Event.{SockEventType, SockEvent, Socket, Details}
use tcpsnitch.Event.Kinds.{kind}
use tcpsnitch.Event.Whole.{IsWhole, FitsDetails}
use tcpsnitch.Kernel.{Kernel}
use tcpsnitch.CLib.{time_micros}
use tcpsnitch.World.{first_world}
use tcpsnitch.Tracer.{Plan}
use tcpsnitch.Spec.{Setting, Abs, put, with_event, Shows}
use tcpsnitch.Spec.Start.{IsEvent, IsNew}
use tcpsnitch.Spec.Hook.{
  Entered, known, made, Entered-table, Final, quiet, informed, read_info, noted,
}
use tcpsnitch.Spec.Handler.{Handled, handled, Duplicated, duplicated}
use tcpsnitch.Spec.Dump.{lines_of, Written, written, no_file}
use tcpsnitch.Spec.Calls.{Call}
use tcpsnitch.Spec.Effects.{Effect}
use tcpsnitch.Spec.Steps.{Cleared, fresh, replaced, Step, logged, not_duped, duped, opened, closed}
use tcpsnitch.Spec.Stored.{set_sock_info-IsWhole}
use tcpsnitch.Spec.Fitting.{IsRegular, Fits, IsFitting, effect_of-IsFitting, close-Fits}
use tcpsnitch.Spec.Invariant.{put-view}
use tcpsnitch.Spec.Runs.{run_all, AllLegal, PathOf, stop, step, nothing, first-Shows, run_all-Path}

-- The details of an event are those of its type, with all that they point to.
abbrev pub IsTyped : SockEvent → Type 0
IsTyped ev = IsWhole ev.type ev.details

pub data AllTyped : List SockEvent → Type 0 where
  no_events : AllTyped []
  and_event :
      {ev : SockEvent} {evs : List SockEvent} → IsTyped ev → AllTyped evs → AllTyped (ev ∷ evs)

pub data LinesTyped : List (Text × SockEvent) → Type 0 where
  no_lines : LinesTyped []
  and_line :
      {path : Text} {ev : SockEvent} {lines : List (Text × SockEvent)}
      → IsTyped ev
      → LinesTyped lines
      → LinesTyped ((path, ev) ∷ lines)

-- The events that wait in sockets, and those that are lines of a file.
pub record Typed (a : Abs) : Type 0 where
  pub waiting : (fd : ℕ) (s : Socket) → a.table fd ≡ some s → AllTyped s.events
  pub out : LinesTyped a.lines

AllTyped-append : {a b : List SockEvent} → AllTyped a → AllTyped b → AllTyped (a ++ b)
AllTyped-append no_events q = q
AllTyped-append (and_event h p) q = and_event h (AllTyped-append p q)

LinesTyped-append :
    {a b : List (Text × SockEvent)} → LinesTyped a → LinesTyped b → LinesTyped (a ++ b)
LinesTyped-append no_lines q = q
LinesTyped-append (and_line h p) q = and_line h (LinesTyped-append p q)

lines_of-LinesTyped :
    (path : Text) {evs : List SockEvent} → AllTyped evs → LinesTyped (lines_of path evs)
lines_of-LinesTyped path no_events = no_lines
lines_of-LinesTyped path (and_event h p) = and_line h (lines_of-LinesTyped path p)

IsEvent-IsTyped :
    {type : SockEventType} {ret err : ℤ} {id : ℕ} {d : Details} {ev : SockEvent}
    → IsEvent type ret err id d ev
    → IsWhole type d
    → IsTyped ev
IsEvent-IsTyped is (same, fits) =
    (ap kind is.details_are ∙ same ∙ sym is.type_is, subst FitsDetails (sym is.details_are) fits)

with_event-AllTyped :
    (s : Socket) (ev : SockEvent)
    → AllTyped s.events
    → IsTyped ev
    → AllTyped (with_event s ev).events
with_event-AllTyped s ev all h = AllTyped-append all (and_event h no_events)

IsNew-AllTyped :
    {type : SockEventType} {n fd : ℕ} {s : Socket} → IsNew type n fd s → AllTyped s.events
IsNew-AllTyped new =
    let (same, fits) = new.first_whole in
    subst AllTyped (sym new.events_are) (and_event (same ∙ sym new.first_type, fits) no_events)

Final-AllTyped :
    {k : Kernel} {u : Setting} {fd : ℕ} {s t : Socket}
    → Final k u fd s t
    → AllTyped s.events
    → AllTyped t.events
unfolding kind
Final-AllTyped (quiet _ _) all = all
Final-AllTyped {k} {s = s} (informed _ _ (read_info {ev} ret err info c _ is)) all =
    with_event-AllTyped (noted info (time_micros k c) s) ev all (IsEvent-IsTyped is (refl, tt))

-- A socket is put at a descriptor.
pub put-Typed :
    {a : Abs} (fd : ℕ) (o : Option Socket) (n : ℕ) {lines : List (Text × SockEvent)}
    → Typed a
    → ((s : Socket) → o ≡ some s → AllTyped s.events)
    → LinesTyped lines
    → Typed (record { table = put fd o a.table; count = n; lines = lines })
put-Typed {a} fd o n t new out = record {
  waiting = λ j s e. elim (put-view fd o a.table j s e) [
    | inl (_, is) ↦ new s is
    | inr (_, e') ↦ t.waiting j s e'
  ];
  out = out;
}

of_some : {s t : Socket} → AllTyped s.events → some s ≡ some t → AllTyped t.events
of_some all e = subst (λ x. AllTyped x.events) (same e) all
  where
    same : {s t : Socket} → some s ≡ some t → s ≡ t
    same h = cc

Entered-Typed : {a : Abs} {fd : ℕ} {s : Socket} {b : Abs} → Entered fd a s b → Typed a → Typed b
Entered-Typed (known _) t = t
Entered-Typed {a} {fd} (made {g} _ new) t =
    put-Typed fd (some g) (suc a.count) t (λ s. of_some (IsNew-AllTyped new)) t.out

pub Written-Typed :
    {k : Kernel} {dir : Option Text} {s t : Socket} {before after : List (Text × SockEvent)}
    → Written k dir s before after t
    → AllTyped s.events
    → LinesTyped before
    → LinesTyped after
Written-Typed (written path _) all out = LinesTyped-append out (lines_of-LinesTyped path all)
Written-Typed (no_file _) all out = out

module _ {k : Kernel} {u : Setting} where
  Handled-Typed :
      {type : SockEventType} {fd : ℕ} {ret err : ℤ} {p : Plan} {a b : Abs}
      → Handled k u type fd ret err p a b
      → Fits type p
      → Typed a
      → Typed b
  Handled-Typed {fd = fd} {p = p} (handled {s} {t} {b} {ev} entered is final) fits typed =
      let before = Entered-Typed entered typed in
      let old = before.waiting fd s (Entered-table entered) in
      let changed = subst AllTyped (sym (fits.kept s)) old in
      let longer = with_event-AllTyped (p.change s) ev changed (IsEvent-IsTyped is fits.whole) in
      put-Typed fd (some t) b.count before (λ x. of_some (Final-AllTyped final longer)) before.out

  Duplicated-Typed :
      {type : SockEventType} {fd r : ℕ} {err : ℤ} {p : Plan} {a b : Abs}
      → Duplicated k u type fd r err p a b
      → Fits type p
      → Typed a
      → Typed b
  Duplicated-Typed {fd = fd} {r = r} {p = p} (duplicated {s} {c} {t} {b} {ev} entered is copy final)
        fits typed =
      let before = Entered-Typed entered typed in
      let old = before.waiting fd s (Entered-table entered) in
      let changed = subst AllTyped (sym (fits.kept s)) old in
      let here = IsEvent-IsTyped is fits.whole in
      let longer = with_event-AllTyped (p.change s) ev changed here in
      let copied =
        subst AllTyped (sym copy.events_are)
          (and_event (set_sock_info-IsWhole (p.change s).sock_info ev.details here) no_events) in
      let both = put-Typed r (some c) (suc b.count) before (λ x. of_some copied) before.out in
      put-Typed fd (some t) (suc b.count) both (λ x. of_some (Final-AllTyped final longer)) both.out

  Cleared-Typed :
      {fd : ℕ} {a : Abs} {after : List (Text × SockEvent)}
      → Cleared k u fd a after
      → Typed a
      → LinesTyped after
  Cleared-Typed (fresh _) t = t.out
  Cleared-Typed {fd} (replaced {s} e how) t = Written-Typed how (t.waiting fd s e) t.out

  pub Step-Typed : {e : Effect} {a b : Abs} → Step k u e a b → IsFitting e → Typed a → Typed b
  Step-Typed (logged h) fits t = Handled-Typed h fits t
  Step-Typed (not_duped h) fits t = Handled-Typed h fits t
  Step-Typed (duped _ h) fits t = Duplicated-Typed h fits t
  Step-Typed (opened {fd} {a = a} {s = s} cleared new _ _) _ t =
      put-Typed fd (some s) (suc a.count) t (λ x. of_some (IsNew-AllTyped new))
        (Cleared-Typed cleared t)
  Step-Typed (closed {fd} {b = b} {s = s} h e how) _ t =
      let v = Handled-Typed h close-Fits t in
      put-Typed fd none b.count v (λ x is. absurd (no x is))
        (Written-Typed how (v.waiting fd s e) v.out)
    where
      no : (x : Socket) → none ≡ some x → ⊥
      no x h = cc

-- Calls whose options have the values of their names, and whose operations are known.
abbrev pub AllRegular : List (Kernel × Call) → Type 0
AllRegular [] = Unit {0}
AllRegular ((_, c) ∷ cs) = IsRegular c × AllRegular cs

pub PathOf-Typed :
    {u : Setting} {cs : List (Kernel × Call)} {a b : Abs}
    → PathOf u cs a b
    → AllLegal cs
    → AllRegular cs
    → Typed a
    → Typed b
PathOf-Typed stop l r t = t
PathOf-Typed (step {c = c} s p) ((_, _, l), ls) (r, rs) t =
    PathOf-Typed p ls rs (Step-Typed s (effect_of-IsFitting c l r) t)

pub nothing-Typed : Typed nothing
nothing-Typed = record { waiting = λ fd s e. absurd (no s e); out = no_lines }
  where
    no : (s : Socket) → none ≡ some s → ⊥
    no s h = cc

-- After every series of legal and regular calls (an option's value has the bytes of the type that its
-- name stands for, an operation of `epoll_ctl` is one of the three), from the start of the program,
-- each event that waits in a socket and each that has been written as a line has the structure of its
-- type, and each block of it that a reader takes a number of bytes or entries from has as many.
pub session-Typed :
    (cs : List (Kernel × Call))
    → AllLegal cs
    → AllRegular cs
    → Returns (λ v. LinesTyped v.trace × ((b : Abs) × Shows b v × Typed b)) (run_all cs first_world)
session-Typed cs legal regular =
    Returns-mono (run_all-Path cs legal first-Shows) λ v (b, path, shows, _).
      let t = PathOf-Typed path legal regular nothing-Typed in
      (subst LinesTyped (sym shows.lines) t.out, (b, shows, t))
