-- ===== src/Spec/Runs.antt =====
-- Runs of the tracer: the hooks of sock_events.c one after the other.
use tcpsnitch.Base.{◌≡◌, refl, sym, subst, true, none, some, List, [], ◌∷◌}
use tcpsnitch.Outcome.{Outcome, done, bind_outcome, Returns, returns, Returns-bind, Returns-mono}
use tcpsnitch.Event.{Socket}
use tcpsnitch.Registry.View.{empty-Idle, empty-peek}
use tcpsnitch.Kernel.{Kernel}
use tcpsnitch.World.{World, first_world}
use tcpsnitch.Init.LogsDir.{IsSane}
use tcpsnitch.Spec.{Setting, setting_of, Abs, Shows}
use tcpsnitch.Spec.Settled.{Settled, Settled-refl, Settled-trans, setting-Settled}
use tcpsnitch.Spec.Dump.{Serialises}
use tcpsnitch.Spec.Calls.{Call, run}
use tcpsnitch.Spec.Effects.{effect_of, IsLegal}
use tcpsnitch.Spec.Steps.{Step}
use tcpsnitch.Spec.Refine.{run-Takes}
use tcpsnitch.Spec.Invariant.{IsGood, Step-IsGood}
use tcpsnitch.Spec.Changes.{effect_of-IsTame}

-- Each call comes with the answers that its hook meets.
abbrev pub run_all : List (Kernel × Call) → World → Outcome World
run_all [] w = done w
run_all ((k, c) ∷ cs) w = bind_outcome (run c k w) (λ (_, v). run_all cs v)

-- What is asked of each call: it is legal, its surroundings are sane, and the JSON library makes a
-- text of every event.
abbrev pub AllLegal : List (Kernel × Call) → Type 0
AllLegal [] = Unit {0}
AllLegal ((k, c) ∷ cs) = (IsSane k × Serialises k × IsLegal c) × AllLegal cs

-- The states that the effects of a list of calls lead to, all with the same directory and options.
pub data PathOf (u : Setting) : List (Kernel × Call) → Abs → Abs → Type 0 where
  stop : {a : Abs} → PathOf u [] a a
  step :
      {k : Kernel} {c : Call} {cs : List (Kernel × Call)} {a b d : Abs}
      → Step k u (effect_of c) a b
      → PathOf u cs b d
      → PathOf u ((k, c) ∷ cs) a d

-- Before the first call: no socket, no number given out, no line.
abbrev pub nothing : Abs
nothing = record { table = λ j. none; count = 0; lines = [] }

pub first-Shows : Shows nothing first_world
first-Shows = record {
  idle = empty-Idle;
  table = empty-peek;
  count = refl;
  lines = refl;
  alive = refl;
}

pub PathOf-IsGood :
    {u : Setting} {cs : List (Kernel × Call)} {a b : Abs} → PathOf u cs a b → IsGood a → IsGood b
PathOf-IsGood stop g = g
PathOf-IsGood (step {c = c} s p) g = PathOf-IsGood p (Step-IsGood s (effect_of-IsTame c) g)

pub nothing-IsGood : IsGood nothing
nothing-IsGood = record {
  sound = λ fd s e. absurd (no s e);
  distinct = λ i j s t e f. absurd (no s e);
}
  where
    no : (s : Socket) → none ≡ some s → ⊥
    no s h = cc

-- The directory and the options of the whole path are those that the run ends with.
pub run_all-Path :
    (cs : List (Kernel × Call)) {a : Abs} {w : World}
    → AllLegal cs
    → Shows a w
    → Returns
        (λ v. (b : Abs) × PathOf (setting_of true v) cs a b × Shows b v × Settled w v)
        (run_all cs w)
run_all-Path [] {w = w} legal s = returns (_, stop, s, Settled-refl w)
run_all-Path ((k, c) ∷ cs) {a} ((sane, json, l), ls) s =
    Returns-bind (run-Takes k sane json c l _ _ s) λ (_, v) ((b, first, s1), ready, t1).
      Returns-mono (run_all-Path cs ls s1) (λ x (d, rest, s2, t2). (
        d,
        step (subst (λ u. Step k u (effect_of c) a b) (sym (setting-Settled true ready t2)) first)
            rest,
        s2,
        Settled-trans t1 t2,
      ))
