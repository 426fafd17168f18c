-- ===== src/Spec/Sessions.antt =====
-- Whole runs of the tracer from the start of the program: the hooks of sock_events.c one after the other.
use tcpsnitch.Base.{ℕ, ◌+◌, ◌*◌, ◌^◌, ◌<◌, ◌≤◌, arith, true, List, length}
use tcpsnitch.Outcome.{Returns, Returns-mono}
use tcpsnitch.Event.{Socket}
use tcpsnitch.Kernel.{Kernel}
use tcpsnitch.World.{first_world}
use tcpsnitch.Spec.{Setting, setting_of, Abs, Shows}
use tcpsnitch.Spec.Hook.{Entered, known, made}
use tcpsnitch.Spec.Handler.{handled, duplicated}
use tcpsnitch.Spec.Effects.{Effect}
use tcpsnitch.Spec.Calls.{Call}
use tcpsnitch.Spec.Steps.{Step, logged, not_duped, duped, opened, closed}
use tcpsnitch.Spec.Invariant.{IsGood}
use tcpsnitch.Spec.Runs.{
  run_all, AllLegal, PathOf, stop, step, nothing, first-Shows, nothing-IsGood, PathOf-IsGood,
  run_all-Path,
}
use tcpsnitch.Spec.Typed.{Typed, AllRegular, nothing-Typed, PathOf-Typed}

Entered-count : {fd : ℕ} {a : Abs} {s : Socket} {b : Abs} → Entered fd a s b → b.count ≤ 1 + a.count
Entered-count (known _) = omega arith
Entered-count (made _ _) = omega arith

module _ {k : Kernel} {u : Setting} where
  -- A call gives out at most two numbers: for a ghost, and for a duplicate of it.
  Step-count : {e : Effect} {a b : Abs} → Step k u e a b → b.count ≤ 2 + a.count
  Step-count (logged (handled entered _ _)) = let h = Entered-count entered in omega arith
  Step-count (not_duped (handled entered _ _)) = let h = Entered-count entered in omega arith
  Step-count (duped _ (duplicated entered _ _ _)) = let h = Entered-count entered in omega arith
  Step-count (opened _ _ _ _) = omega arith
  Step-count (closed (handled entered _ _) _ _) = let h = Entered-count entered in omega arith

PathOf-count :
    {u : Setting} {cs : List (Kernel × Call)} {a b : Abs}
    → PathOf u cs a b
    → b.count ≤ 2 * length cs + a.count
PathOf-count stop = omega arith
PathOf-count (step s p) = let h = Step-count s in let t = PathOf-count p in omega arith

-- Every series of fewer than 2^30 legal and regular calls, from the start of the program, is traced
-- without a fault, where the surroundings are sane and every event can be made a JSON text. It ends with
-- no lock held, in a state that the effects of the calls lead to, all with the directory and the options
-- that it ends with. Each socket stands at its descriptor under a number of its own that has been given
-- out, with counters in range; no number is beyond the `int` that counts them; and each event that waits
-- or has become a line has the structure of its type, with blocks as long as what is read in them.
pub session-IsGood :
    (cs : List (Kernel × Call))
    → AllLegal cs
    → AllRegular cs
    → length cs < 2 ^ 30
    → Returns
        (λ v.
          (b : Abs) × PathOf (setting_of true v) cs nothing b
          × Shows b v
          × IsGood b
          × Typed b
          × (b.count < 2 ^ 31))
        (run_all cs first_world)
session-IsGood cs legal regular short =
    Returns-mono (run_all-Path cs legal first-Shows) (λ v (b, path, s, _).
      let most = PathOf-count path in
      (
        b,
        path,
        s,
        PathOf-IsGood path nothing-IsGood,
        PathOf-Typed path legal regular nothing-Typed,
        omega arith,
      ))
