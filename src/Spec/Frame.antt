-- ===== src/Spec/Frame.antt =====
-- What the steps of the hooks of sock_events.c leave alone.
use tcpsnitch.Base.{
  Option, ℕ, ◌≡◌, ◌≢◌, refl, sym, ap, ◌∙◌, ℤ, pos, negsuc, none, some, List, [], ◌++◌, append-nil,
  append_assoc,
}
use tcpsnitch.Outcome.{Returns, Returns-mono}
use tcpsnitch.Bytes.{Text}
use tcpsnitch.Event.{SockEventType, SockEvent, Socket}
use tcpsnitch.Kernel.{Kernel}
use tcpsnitch.World.{World}
use tcpsnitch.Tracer.{Plan}
use tcpsnitch.Spec.{Setting, Abs, put, put-other, Shows}
use tcpsnitch.Spec.Hook.{Entered, known, made}
use tcpsnitch.Spec.Handler.{Handled, handled, Duplicated, duplicated}
use tcpsnitch.Spec.Dump.{Written, written, no_file, lines_of}
use tcpsnitch.Spec.Calls.{Call}
use tcpsnitch.Spec.Effects.{Effect, logs, dups, opens, closes}
use tcpsnitch.Spec.Steps.{Cleared, fresh, replaced, Step, logged, not_duped, duped, opened, closed}
use tcpsnitch.Spec.Runs.{PathOf, stop, step, AllLegal, run_all, run_all-Path}

-- A descriptor that a call is not about.
abbrev pub Apart : Effect → ℕ → Type 0
Apart (logs type fd ret err p) j = j ≢ fd
Apart (dups type fd (pos r) err p) j = (j ≢ fd) × (j ≢ r)
Apart (dups type fd (negsuc n) err p) j = j ≢ fd
Apart (opens fd info) j = j ≢ fd
Apart (closes fd ret err) j = j ≢ fd

Entered-frame :
    {fd : ℕ} {a : Abs} {s : Socket} {b : Abs}
    → Entered fd a s b
    → (j : ℕ) → j ≢ fd
    → b.table j ≡ a.table j
Entered-frame (known _) j ne = refl
Entered-frame {fd} {a} (made {g} _ _) j ne = put-other fd (some g) a.table j ne

Entered-lines : {fd : ℕ} {a : Abs} {s : Socket} {b : Abs} → Entered fd a s b → b.lines ≡ a.lines
Entered-lines (known _) = refl
Entered-lines (made _ _) = refl

-- That some lines are others with more behind them.
pub record Extends (before after : List (Text × SockEvent)) : Type 0 where
  pub new : List (Text × SockEvent)
  pub after_is : after ≡ before ++ new

pub Extends-same : {before after : List (Text × SockEvent)} → after ≡ before → Extends before after
Extends-same e = record { new = []; after_is = e ∙ sym (append-nil _) }

pub Extends-trans : {x y z : List (Text × SockEvent)} → Extends x y → Extends y z → Extends x z
Extends-trans {x} p q = record {
  new = p.new ++ q.new;
  after_is = q.after_is ∙ ap (λ l. l ++ q.new) p.after_is ∙ append_assoc x p.new q.new;
}

pub Written-Extends :
    {k : Kernel} {dir : Option Text} {s t : Socket} {before after : List (Text × SockEvent)}
    → Written k dir s before after t
    → Extends before after
Written-Extends {s} (written path _) = record { new = lines_of path s.events; after_is = refl }
Written-Extends (no_file _) = Extends-same refl

module _ {k : Kernel} {u : Setting} where
  Handled-frame :
      {type : SockEventType} {fd : ℕ} {ret err : ℤ} {p : Plan} {a b : Abs}
      → Handled k u type fd ret err p a b
      → (j : ℕ) → j ≢ fd
      → b.table j ≡ a.table j
  Handled-frame {fd = fd} (handled {t = t} {b = b} entered _ _) j ne =
      put-other fd (some t) b.table j ne ∙ Entered-frame entered j ne

  Handled-lines :
      {type : SockEventType} {fd : ℕ} {ret err : ℤ} {p : Plan} {a b : Abs}
      → Handled k u type fd ret err p a b
      → b.lines ≡ a.lines
  Handled-lines (handled entered _ _) = Entered-lines entered

  Duplicated-frame :
      {type : SockEventType} {fd r : ℕ} {err : ℤ} {p : Plan} {a b : Abs}
      → Duplicated k u type fd r err p a b
      → (j : ℕ) → j ≢ fd
      → j ≢ r
      → b.table j ≡ a.table j
  Duplicated-frame {fd = fd} {r = r} (duplicated {c = c} {t = t} {b = b} entered _ _ _) j ne ne' =
      put-other fd (some t) (put r (some c) b.table) j ne
      ∙ put-other r (some c) b.table j ne'
      ∙ Entered-frame entered j ne

  Duplicated-lines :
      {type : SockEventType} {fd r : ℕ} {err : ℤ} {p : Plan} {a b : Abs}
      → Duplicated k u type fd r err p a b
      → b.lines ≡ a.lines
  Duplicated-lines (duplicated entered _ _ _) = Entered-lines entered

  -- A step leaves the sockets of all descriptors alone that its call is not about.
  pub Step-frame :
      {e : Effect} {a b : Abs} (j : ℕ) → Step k u e a b → Apart e j → b.table j ≡ a.table j
  Step-frame j (logged h) ne = Handled-frame h j ne
  Step-frame j (not_duped h) ne = Handled-frame h j ne
  Step-frame j (duped _ h) (ne, ne') = Duplicated-frame h j ne ne'
  Step-frame j (opened {fd} {a = a} {s = s} _ _ _ _) ne = put-other fd (some s) a.table j ne
  Step-frame j (closed {fd} {b = b} h _ _) ne =
      put-other fd none b.table j ne ∙ Handled-frame h j ne

  Cleared-Extends :
      {fd : ℕ} {a : Abs} {after : List (Text × SockEvent)}
      → Cleared k u fd a after
      → Extends a.lines after
  Cleared-Extends (fresh _) = Extends-same refl
  Cleared-Extends (replaced _ how) = Written-Extends how

  pub Step-Extends : {e : Effect} {a b : Abs} → Step k u e a b → Extends a.lines b.lines
  Step-Extends (logged h) = Extends-same (Handled-lines h)
  Step-Extends (not_duped h) = Extends-same (Handled-lines h)
  Step-Extends (duped _ h) = Extends-same (Duplicated-lines h)
  Step-Extends (opened cleared _ _ _) = Cleared-Extends cleared
  Step-Extends (closed h _ how) =
      Extends-trans (Extends-same (Handled-lines h)) (Written-Extends how)

PathOf-Extends :
    {u : Setting} {cs : List (Kernel × Call)} {a b : Abs}
    → PathOf u cs a b
    → Extends a.lines b.lines
PathOf-Extends stop = Extends-same refl
PathOf-Extends (step s p) = Extends-trans (Step-Extends s) (PathOf-Extends p)

-- A series of legal calls never changes or removes a line that has been written: it only adds lines
-- behind them; where the surroundings are sane and every event can be made a JSON text.
pub run_all-Extends :
    (cs : List (Kernel × Call)) {a : Abs} {w : World}
    → AllLegal cs
    → Shows a w
    → Returns (λ v. Extends w.trace v.trace) (run_all cs w)
run_all-Extends cs legal s =
    Returns-mono (run_all-Path cs legal s)
      (λ v (b, path, s', _). rw (s.lines, s'.lines) (PathOf-Extends path))
