-- ===== src/World.antt =====
-- The state of the library, the statics of its source files in one record, and the functions
-- over it: a C function reads the answers of its surroundings and changes the state, or faults.
use tcpsnitch.Base.{ℕ, suc, ℤ, pos, Bool, false, Option, none, List, []}
use tcpsnitch.Outcome.{Fault, Outcome, done, fault, bind_outcome}
use tcpsnitch.Registry.{Registry, Ra, empty_registry}
use tcpsnitch.Bytes.{Text}
use tcpsnitch.Event.{SockEvent, Socket}
use tcpsnitch.Kernel.{Kernel}
use tcpsnitch.CLib.{time_micros}

-- The options of init.c.
pub record Options : Type 0 where
  pub opt_b : ℤ
  pub opt_c : ℤ
  pub opt_d : Option Text
  pub opt_f : ℤ
  pub opt_l : ℤ
  pub opt_u : ℤ
  pub opt_t : ℤ
  pub opt_v : ℤ

-- The statics of logger.c: the file of the log, and the levels up to which lines are written.
pub record LoggerState : Type 0 where
  pub log_file : Option Text
  pub stderr_lvl : ℤ
  pub file_lvl : ℤ

pub record World : Type 0 where
  -- resizable_array.c
  pub registry : Registry Socket
  -- sock_events.c
  pub connections_count : ℕ
  -- init.c
  pub initialized : Bool
  pub options : Options
  pub logs_dir_path : Option Text
  -- Whether the text that `logs_dir_path` points to has been freed
  pub logs_dir_freed : Bool
  pub std_out : Bool
  pub std_err : Bool
  -- logger.c
  pub logs : LoggerState
  -- What the library does to its surroundings: the lines of the JSON files, oldest first, each
  -- with its file and the event that it is built from; the lines shown on its standard output;
  -- the captures that are told to end, each with the delay in milliseconds; the dumper threads.
  pub trace : List (Text × SockEvent)
  pub shown : List Text
  pub stopped : List (ℕ × ℤ)
  -- The captures that have been started, each with its filter and its file; the calls of the original
  -- `bind` on a socket, each with whether it is for IPv6 and with the port.
  pub captures : List (Text × Text)
  pub binds : List (ℕ × Bool × ℕ)
  pub dumpers : ℕ
  -- The calls of `gettimeofday` made so far.
  pub clock : ℕ

abbrev pub M : Type 0 → Type 0
M A = Kernel → World → Outcome (A × World)

abbrev pub pure : {A : Type 0} → A → M A
pure a k w = done (a, w)

abbrev pub fail : {A : Type 0} → Fault → M A
fail e k w = fault e

infixl 5 ◌>>=◌ ◌>>◌
abbrev pub ◌>>=◌ : {A B : Type 0} → M A → (A → M B) → M B
◌>>=◌ m f k w = bind_outcome (m k w) (λ (a, v). f a k v)

abbrev pub ◌>>◌ : {B : Type 0} → M (Unit {0}) → M B → M B
m >> n = m >>= λ _. n

-- A part that only computes, or faults.
abbrev pub lift : {A : Type 0} → Outcome A → M A
lift o k w = bind_outcome o (λ a. done (a, w))

abbrev pub kernel : M Kernel
kernel k w = done (k, w)

abbrev pub get_world : M World
get_world k w = done (w, w)

abbrev pub modify_world : (World → World) → M (Unit {0})
modify_world f k w = done (tt, f w)

-- A function of resizable_array.c on the table of sockets.
abbrev pub on_registry : {A : Type 0} → Ra Socket A → M A
on_registry m k w = bind_outcome (m w.registry) (λ (a, r). done (a, record w { registry = r }))

-- lib.c: the time now.
unfoldable pub get_time_micros : M ℕ
get_time_micros k w = done (time_micros k w.clock, record w { clock = suc w.clock })

-- The statics before the first call.
abbrev pub first_world : World
first_world = record {
  registry = empty_registry;
  connections_count = 0;
  initialized = false;
  options = record {
    opt_b = pos 0;
    opt_c = pos 0;
    opt_d = none;
    opt_f = pos 0;
    opt_l = pos 0;
    opt_u = pos 0;
    opt_t = pos 0;
    opt_v = pos 0;
  };
  logs_dir_path = none;
  logs_dir_freed = false;
  std_out = false;
  std_err = false;
  logs = record { log_file = none; stderr_lvl = pos 2; file_lvl = pos 2 };
  trace = [];
  shown = [];
  stopped = [];
  captures = [];
  binds = [];
  dumpers = 0;
  clock = 0;
}
