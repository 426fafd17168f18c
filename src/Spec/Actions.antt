-- ===== src/Spec/Actions.antt =====
-- The calls of the program, with rounds of the dumper thread between them (sock_events.c and init.c):
-- what stays true of the tracer through both.
use tcpsnitch.Base.{ℕ, ◌≡◌, refl, subst, Option, some, List, [], ◌∷◌}
use tcpsnitch.Outcome.{Outcome, done, bind_outcome, Returns, returns, Returns-bind, Returns-mono}
use tcpsnitch.Bytes.{Text}
use tcpsnitch.Event.{SockEvent, Socket}
use tcpsnitch.Kernel.{Kernel}
use tcpsnitch.World.{World, M}
use tcpsnitch.Tracer.Dump.{json_dumper_round}
use tcpsnitch.Init.LogsDir.{IsSane}
use tcpsnitch.Spec.{Abs, Shows}
use tcpsnitch.Spec.Dump.{Serialises, Written, written, no_file}
use tcpsnitch.Spec.Sweep.{Emptied, skipped, emptied, Swept, over, next, dump_all-Swept}
use tcpsnitch.Spec.Calls.{Call, run}
use tcpsnitch.Spec.Effects.{IsLegal}
use tcpsnitch.Spec.Refine.{run-Step}
use tcpsnitch.Spec.Invariant.{IsGood, Tame, Tame-refl, modify-IsGood, Step-IsGood}
use tcpsnitch.Spec.Changes.{effect_of-IsTame}
use tcpsnitch.Spec.Fitting.{IsRegular, effect_of-IsFitting}
use tcpsnitch.Spec.Typed.{
  AllTyped, no_events, Typed, put-Typed, Written-Typed, Step-Typed, nothing-Typed,
}
use tcpsnitch.Spec.Frame.{Extends, Extends-same, Extends-trans, Written-Extends, Step-Extends}
use tcpsnitch.Spec.Runs.{nothing, nothing-IsGood}

-- What can happen between two states of the tracer in which no lock is held.
pub data Action : Type 0 where
  hooked : Call → Action
  dumper_round : Action

abbrev pub act : Action → M (Unit {0})
act (hooked c) = run c
act dumper_round = json_dumper_round

-- Each action comes with the answers that it meets.
abbrev pub act_all : List (Kernel × Action) → World → Outcome World
act_all [] w = done w
act_all ((k, e) ∷ es) w = bind_outcome (act e k w) (λ (_, v). act_all es v)

-- What is asked of an action: the JSON library makes a text of every event, and a call is legal and
-- regular, and its surroundings are sane.
abbrev pub IsFair : Kernel → Action → Type 0
IsFair k (hooked c) = IsSane k × Serialises k × IsLegal c × IsRegular c
IsFair k dumper_round = Serialises k

abbrev pub AllFair : List (Kernel × Action) → Type 0
AllFair [] = Unit {0}
AllFair ((k, e) ∷ es) = IsFair k e × AllFair es

-- A state that the tracer can be in.
pub record IsKept (a : Abs) : Type 0 where
  pub good : IsGood a
  pub typed : Typed a

pub nothing-IsKept : IsKept nothing
nothing-IsKept = record { good = nothing-IsGood; typed = nothing-Typed }

module _ {k : Kernel} where
  Written-Tame :
      {dir : Option Text} {s t : Socket} {before after : List (Text × SockEvent)}
      → Written k dir s before after t
      → Tame s t
  Written-Tame (written _ _) = record {
    id_kept = refl;
    fd_kept = refl;
    sent = λ h. h;
    received = λ h. h;
  }
  Written-Tame {s = s} (no_file _) = Tame-refl s

  Written-AllTyped :
      {dir : Option Text} {s t : Socket} {before after : List (Text × SockEvent)}
      → Written k dir s before after t
      → AllTyped s.events
      → AllTyped t.events
  Written-AllTyped (written _ _) all = no_events
  Written-AllTyped (no_file _) all = all

  Emptied-IsKept :
      {dir : Option Text} {i : ℕ} {a b : Abs} → Emptied k dir i a b → IsKept a → IsKept b
  Emptied-IsKept (skipped _) kept = kept
  Emptied-IsKept {i} {a} (emptied {s} {t} e how) kept =
      let good = modify-IsGood i kept.good e (Written-Tame how) in
      let old = kept.typed.waiting i s e in
      record {
        good = record { sound = good.sound; distinct = good.distinct };
        typed =
            put-Typed i (some t) a.count kept.typed
              (λ x is. subst (λ y. AllTyped y.events) (same is) (Written-AllTyped how old))
              (Written-Typed how old kept.typed.out);
      }
    where
      same : {x y : Socket} → some x ≡ some y → x ≡ y
      same h = cc

  pub Swept-IsKept :
      {dir : Option Text} {n i : ℕ} {a b : Abs} → Swept k dir n i a b → IsKept a → IsKept b
  Swept-IsKept (over _) kept = kept
  Swept-IsKept (next _ one rest) kept = Swept-IsKept rest (Emptied-IsKept one kept)

  Emptied-Extends :
      {dir : Option Text} {i : ℕ} {a b : Abs} → Emptied k dir i a b → Extends a.lines b.lines
  Emptied-Extends (skipped _) = Extends-same refl
  Emptied-Extends (emptied _ how) = Written-Extends how

  pub Swept-Extends :
      {dir : Option Text} {n i : ℕ} {a b : Abs} → Swept k dir n i a b → Extends a.lines b.lines
  Swept-Extends (over _) = Extends-same refl
  Swept-Extends (next _ one rest) = Extends-trans (Emptied-Extends one) (Swept-Extends rest)

-- An action leads from a state that the tracer can be in to another, and changes no line.
act-IsKept :
    (k : Kernel) (e : Action) {a : Abs} {w : World}
    → IsFair k e
    → Shows a w
    → IsKept a
    → Returns (λ (_, v). (b : Abs) × Shows b v × IsKept b × Extends a.lines b.lines) (act e k w)
unfolding json_dumper_round
act-IsKept k (hooked c) (sane, json, l, r) shows kept =
    Returns-mono (run-Step k sane json c l shows) λ (_, v) (b, one, s). (
      b,
      s,
      record {
        good = Step-IsGood one (effect_of-IsTame c) kept.good;
        typed = Step-Typed one (effect_of-IsFitting c l r) kept.typed;
      },
      Step-Extends one,
    )
act-IsKept k dumper_round json shows kept =
    Returns-mono (dump_all-Swept k json shows)
      λ (_, v) (n, b, swept, s, _). (b, s, Swept-IsKept swept kept, Swept-Extends swept)

pub act_all-IsKept :
    (es : List (Kernel × Action)) {a : Abs} {w : World}
    → AllFair es
    → Shows a w
    → IsKept a
    → Returns (λ v. (b : Abs) × Shows b v × IsKept b × Extends a.lines b.lines) (act_all es w)
act_all-IsKept [] fair shows kept = returns (_, shows, kept, Extends-same refl)
act_all-IsKept ((k, e) ∷ es) (f, fs) shows kept =
    Returns-bind (act-IsKept k e f shows kept) λ (_, v) (b, s, kept1, more).
      Returns-mono (act_all-IsKept es fs s kept1)
        (λ u (d, s2, kept2, rest). (d, s2, kept2, Extends-trans more rest))
