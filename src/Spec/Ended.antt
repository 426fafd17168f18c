-- ===== src/Spec/Ended.antt =====
-- The end of a process (`cleanup` of init.c) after any series of calls and rounds of the dumper thread.
use tcpsnitch.Base.{
  ℕ, ◌≡◌, ◌⊎◌, inl, inr, refl, sym, subst, true, Option, none, some, List, ◌∷◌, ◌++◌,
}
use tcpsnitch.Outcome.{Returns, Returns-mono}
use tcpsnitch.Bytes.{Text}
use tcpsnitch.Text.{codes, decimal}
use tcpsnitch.Text.Paths.{alloc_concat_path-some}
use tcpsnitch.Kernel.{Kernel}
use tcpsnitch.World.{World, first_world}
use tcpsnitch.Tracer.Dump.{cleanup}
use tcpsnitch.Json.{Jansson, IsJansson, Names}
use tcpsnitch.Spec.{Abs, Shows}
use tcpsnitch.Spec.Dump.{Serialises, opens}
use tcpsnitch.Spec.Sweep.{dump_all-Swept}
use tcpsnitch.Spec.Drain.{Drained, Swept-Drained}
use tcpsnitch.Spec.Frame.{Extends}
use tcpsnitch.Spec.Invariant.{IsGood}
use tcpsnitch.Spec.Runs.{first-Shows}
use tcpsnitch.Spec.Told.{LinesTold, LinesTyped-LinesTold}
use tcpsnitch.Spec.Actions.{
  Action, act_all, AllFair, IsKept, nothing-IsKept, act_all-IsKept, Swept-IsKept, Swept-Extends,
}

-- The process has ended in `v`, from `w`.
pub record IsOver (j : Jansson) (names : Names) (w v : World) : Type 0 where
  pub before : Abs
  pub after : Abs
  pub before_shown : Shows before w
  pub after_shown : Shows after v
  pub good : IsGood after
  pub kept : Extends w.trace v.trace
  pub told : LinesTold j names v.trace
  pub all_out : (w.logs_dir_path ≡ none) ⊎ Drained w.logs_dir_path before after

opens-some :
    (k : Kernel)
    → ((path : Text) → k.fopen path ≡ true)
    → (dir : Text) (id : ℕ) → opens k (some dir) id ≡ true
unfolding opens
opens-some k can dir id =
    rw (alloc_concat_path-some dir (decimal id ++ codes ".json"), opens)
      (can (dir ++ b'/' ∷ (decimal id ++ codes ".json")))

can_open :
    (k : Kernel)
    → ((path : Text) → k.fopen path ≡ true)
    → (dir : Option Text) → (dir ≡ none) ⊎ ((id : ℕ) → opens k dir id ≡ true)
can_open k can none = inl refl
can_open k can (some dir) = inr (opens-some k can dir)

module _ (j : Jansson) (laws : IsJansson j) (names : Names) where
  cleanup-IsOver :
      (k : Kernel)
      → Serialises k
      → ((path : Text) → k.fopen path ≡ true)
      → {a : Abs} {w : World} → Shows a w
      → IsKept a
      → Returns (λ (_, v). IsOver j names w v) (cleanup k w)
  unfolding cleanup
  cleanup-IsOver k json can {a} {w} shows kept =
      Returns-mono (dump_all-Swept k json shows) λ (_, v) (n, b, swept, s, bound).
        let kept1 = Swept-IsKept swept kept in
        record {
          before = a;
          after = b;
          before_shown = shows;
          after_shown = s;
          good = kept1.good;
          kept = rw (shows.lines, s.lines) (Swept-Extends swept);
          told =
              subst (LinesTold j names) (sym s.lines)
                (LinesTyped-LinesTold j laws names kept1.typed.out);
          all_out = elim (can_open k can w.logs_dir_path) [
            | inl e ↦ inl e
            | inr open_all ↦ inr (Swept-Drained open_all swept bound)
          ];
        }

  -- After every series of legal and regular calls, with rounds of the dumper thread between them in any
  -- order, from the start of the program, `cleanup` ends without a fault and leaves no lock and no table
  -- but a good one. No line that was written before is changed or lost, and each line is that of an
  -- event that is made a JSON object which tells it. If there is a directory of traces, no event waits
  -- any more, and each that has waited is a line of the file of its socket; where every event can be
  -- made a JSON text and files can be opened at the end.
  pub session-IsOver :
      (es : List (Kernel × Action))
      → AllFair es
      → (k : Kernel) → Serialises k
      → ((path : Text) → k.fopen path ≡ true)
      → Returns (λ w. Returns (λ (_, v). IsOver j names w v) (cleanup k w)) (act_all es first_world)
  session-IsOver es fair k json can =
      Returns-mono (act_all-IsKept es fair first-Shows nothing-IsKept)
        (λ w (a, shows, kept, _). cleanup-IsOver k json can shows kept)
