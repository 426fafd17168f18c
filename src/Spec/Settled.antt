-- ===== src/Spec/Settled.antt =====
-- Once the library is initialized no hook of sock_events.c changes the directory of the traces or the
-- options.
use tcpsnitch.Base.{◌≡◌, refl, ◌∙◌, Bool, true, false, List, [], if◌then◌else◌}
use tcpsnitch.Outcome.{Outcome, Fault, done, fault, bind_outcome, Returns, returns}
use tcpsnitch.Bytes.{Text}
use tcpsnitch.Event.{SockEvent, Socket}
use tcpsnitch.Registry.{Registry}
use tcpsnitch.Kernel.{Kernel}
use tcpsnitch.World.{World, M}
use tcpsnitch.Spec.{setting_of}

-- What holds of the result of a run, if it has one.
pub data Ends {A : Type 0} (P : A → Type 0) : Outcome A → Type 0 where
  ended : {a : A} → P a → Ends P (done a)
  faulty : {e : Fault} → Ends P (fault e)

pub Returns-Ends :
    {A : Type 0} {P Q : A → Type 0} {r : Outcome A}
    → Returns P r
    → Ends Q r
    → Returns (λ a. P a × Q a) r
Returns-Ends (returns p) (ended q) = returns (p, q)

-- The directory and the options of an initialized library are as before.
pub record Settled (w v : World) : Type 0 where
  pub ready : w.initialized ≡ true → v.initialized ≡ true
  pub dir : w.initialized ≡ true → v.logs_dir_path ≡ w.logs_dir_path
  pub options : w.initialized ≡ true → v.options ≡ w.options

pub Settled-trans : {u v w : World} → Settled u v → Settled v w → Settled u w
Settled-trans p q = record {
  ready = λ e. q.ready (p.ready e);
  dir = λ e. q.dir (p.ready e) ∙ p.dir e;
  options = λ e. q.options (p.ready e) ∙ p.options e;
}

pub Settled-refl : (w : World) → Settled w w
Settled-refl w = record { ready = λ e. e; dir = λ e. refl; options = λ e. refl }

pub setting-Settled :
    {w v : World} (asks : Bool)
    → w.initialized ≡ true
    → Settled w v
    → setting_of asks v ≡ setting_of asks w
setting-Settled asks e h = λ i. record { dir = h.dir e i; options = h.options e i; asks = asks }

-- A function all of whose runs that end leave them alone.
abbrev pub Steady : {A : Type 0} → Kernel → M A → Type 0
Steady k m = (w : World) → Ends (λ (_, v). Settled w v) (m k w)

after_Settled :
    {B : Type 0} {w v : World} {r : Outcome (B × World)}
    → Settled w v
    → Ends (λ (_, u). Settled v u) r
    → Ends (λ (_, u). Settled w u) r
after_Settled p (ended q) = ended (Settled-trans p q)
after_Settled p faulty = faulty

pub bind-Settled :
    {A B : Type 0} {w : World} {r : Outcome (A × World)} {f : A × World → Outcome (B × World)}
    → Ends (λ (_, v). Settled w v) r
    → ((p : A × World) → Ends (λ (_, u). Settled p.1 u) (f p))
    → Ends (λ (_, u). Settled w u) (bind_outcome r f)
bind-Settled (ended {a} p) next = after_Settled p (next a)
bind-Settled faulty next = faulty

pub result_if :
    {A : Type 0} {w : World} {x y : Outcome (A × World)} (b : Bool)
    → Ends (λ (_, v). Settled w v) x
    → Ends (λ (_, v). Settled w v) y
    → Ends (λ (_, v). Settled w v) (if b then x else y)
result_if true p q = p
result_if false p q = q

not_yet : (w : World) → w.initialized ≡ false → w.initialized ≡ true → ⊥
not_yet w e h = cc

pub result_first :
    {A : Type 0} {w : World} (o : Outcome (A × World))
    → w.initialized ≡ false
    → Ends (λ (_, v). Settled w v) o
result_first {w = w} (done _) e = ended (record {
  ready = λ h. absurd (not_yet w e h);
  dir = λ h. absurd (not_yet w e h);
  options = λ h. absurd (not_yet w e h);
})
result_first (fault _) e = faulty

pub registry_result :
    {A : Type 0} (w : World) (o : Outcome (A × Registry Socket))
    → Ends (λ (_, v). Settled w v) (bind_outcome o (λ (a, r). done (a, record w { registry = r })))
registry_result w (done _) = ended (record { ready = λ e. e; dir = λ e. refl; options = λ e. refl })
registry_result w (fault _) = faulty

pub lines_result :
    (w : World) (sock : Socket) (o : Outcome (Bool × List (Text × SockEvent)))
    → Ends
        (λ (_, v). Settled w v)
        (elim o [
          | fault e ↦ fault e
          | done (all, lines) ↦
              done (if all then record sock { events = [] } else sock, record w { trace = lines })
        ])
lines_result w sock (done _) =
    ended (record { ready = λ e. e; dir = λ e. refl; options = λ e. refl })
lines_result w sock (fault _) = faulty
