-- ===== src/Spec.antt =====
-- What the tracer promises: the sockets that it knows, how many it has numbered, and the lines
-- that it has written. The table of sock_events.c stands for such a state between calls, and
-- while a hook holds the socket of a descriptor.
pub mod Settled
pub mod Steady
pub mod Readied
pub mod Due
pub mod Table
pub mod Start
pub mod Hook
pub mod Handler
pub mod Dump
pub mod Calls
pub mod Effects
pub mod Steps
pub mod Takes
pub mod Refine
pub mod Invariant
pub mod Changes
pub mod Runs
pub mod Sweep
pub mod Stored
pub mod Fitting
pub mod Actions
pub mod Ended
pub mod Capturing
pub mod Connect
pub mod Told
pub mod Typed
pub mod Sessions
pub mod Drain
pub mod Frame
pub mod Observed
pub mod Selected
pub mod Fork
pub mod Heirs
pub mod Forked
use tcpsnitch.Base.{
  suc, [], ◌∷◌, ◌++◌, eqb→eq, false, ne→eqb, eqb_refl, Bool-cases, inl, inr, refl, true, ℕ, ◌≡◌, ap,
  ◌∙◌, Bool, Option, none, some, List, ◌==◌, if◌then◌else◌,
}
use tcpsnitch.Bytes.{Text}
use tcpsnitch.Event.{SockEvent, Socket}
use tcpsnitch.Registry.View.{peek, Idle, Held}
use tcpsnitch.World.{World, Options}
use tcpsnitch.Init.Once.{Untouched}

pub record Abs : Type 0 where
  pub table : ℕ → Option Socket
  pub count : ℕ
  pub lines : List (Text × SockEvent)

-- A socket with one more event, behind its others.
abbrev pub with_event : Socket → SockEvent → Socket
with_event s ev = record s { events = s.events ++ ev ∷ []; events_count = suc s.events_count }

-- The table with another entry at `i`.
abbrev pub put : ℕ → Option Socket → (ℕ → Option Socket) → ℕ → Option Socket
put i o f j = if j == i then o else f j

abbrev pub with_socket : ℕ → Option Socket → Abs → Abs
with_socket i o a = record a { table = put i o a.table }

-- What of the state no hook changes once the library is initialized, and whether the event of a hook is
-- one after which TCP_INFO is asked for, which that of TCP_INFO itself is not.
pub record Setting : Type 0 where
  pub dir : Option Text
  pub options : Options
  pub asks : Bool

abbrev pub setting_of : Bool → World → Setting
setting_of asks w = record { dir = w.logs_dir_path; options = w.options; asks = asks }

-- No lock is held, and the state is `a`.
pub record Shows (a : Abs) (w : World) : Type 0 where
  pub idle : Idle w.registry
  pub table : (j : ℕ) → peek w.registry j ≡ a.table j
  pub count : w.connections_count ≡ a.count
  pub lines : w.trace ≡ a.lines
  pub alive : w.logs_dir_freed ≡ false

-- The socket of `fd` is locked, and the state is `a`.
pub record ShowsHeld (fd : ℕ) (a : Abs) (w : World) : Type 0 where
  pub held : Held fd w.registry
  pub table : (j : ℕ) → peek w.registry j ≡ a.table j
  pub count : w.connections_count ≡ a.count
  pub lines : w.trace ≡ a.lines
  pub alive : w.logs_dir_freed ≡ false

pub put-same : (i : ℕ) (o : Option Socket) (f : ℕ → Option Socket) → put i o f i ≡ o
put-same i o f = rw (eqb_refl i) refl

pub put-put :
    (i : ℕ) (o o' : Option Socket) (f : ℕ → Option Socket) (j : ℕ)
    → put i o (put i o' f) j ≡ put i o f j
put-put i o o' f j = elim (Bool-cases (j == i)) [ inl e ↦ rw e refl | inr e ↦ rw e refl ]

pub Shows-again :
    (fd : ℕ) (o o' : Option Socket) (a : Abs) {w : World}
    → Shows (with_socket fd o (with_socket fd o' a)) w
    → Shows (with_socket fd o a) w
Shows-again fd o o' a s = record {
  idle = s.idle;
  table = λ j. s.table j ∙ put-put fd o o' a.table j;
  count = s.count;
  lines = s.lines;
  alive = s.alive;
}

pub ShowsHeld-again :
    (fd : ℕ) (o o' : Option Socket) (a : Abs) {w : World}
    → ShowsHeld fd (with_socket fd o (with_socket fd o' a)) w
    → ShowsHeld fd (with_socket fd o a) w
ShowsHeld-again fd o o' a s = record {
  held = s.held;
  table = λ j. s.table j ∙ put-put fd o o' a.table j;
  count = s.count;
  lines = s.lines;
  alive = s.alive;
}

pub Shows-Untouched : {a : Abs} {w v : World} → Untouched w v → Shows a w → Shows a v
Shows-Untouched q s = record {
  idle = rw q.registry s.idle;
  table = λ j. ap (λ r. peek r j) q.registry ∙ s.table j;
  count = q.count ∙ s.count;
  lines = q.trace ∙ s.lines;
  alive = q.alive s.alive;
}

pub ShowsHeld-Untouched :
    {fd : ℕ} {a : Abs} {w v : World} → Untouched w v → ShowsHeld fd a w → ShowsHeld fd a v
ShowsHeld-Untouched q s = record {
  held = rw q.registry s.held;
  table = λ j. ap (λ r. peek r j) q.registry ∙ s.table j;
  count = q.count ∙ s.count;
  lines = q.trace ∙ s.lines;
  alive = q.alive s.alive;
}

pub put-other :
    (i : ℕ) (o : Option Socket) (f : ℕ → Option Socket) (j : ℕ) → ((j ≡ i) → ⊥) → put i o f j ≡ f j
put-other i o f j ne = rw (ne→eqb j i ne) refl

-- What `fd` held before it was written last is forgotten, whatever was written in between.
pub put-under :
    (i : ℕ) (o o' : Option Socket) (r : ℕ) (p : Option Socket) (f : ℕ → Option Socket) (j : ℕ)
    → put i o (put r p (put i o' f)) j ≡ put i o (put r p f) j
put-under i o o' r p f j = elim (Bool-cases (j == i)) [ inl e ↦ rw e refl | inr e ↦ rw e refl ]

pub put_self : (i : ℕ) (f : ℕ → Option Socket) (j : ℕ) → f j ≡ put i (f i) f j
put_self i f j = elim (Bool-cases (j == i)) [
  | inl e ↦ rw e (ap f (eqb→eq j i e))
  | inr e ↦ rw e refl
]
