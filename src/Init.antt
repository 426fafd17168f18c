-- ===== src/Init.antt =====
-- init.c: reading the options, finding a directory for the traces, and the start of the library.
pub mod Once
pub mod LogsDir
use tcpsnitch.Base.{
  ℕ, zero, suc, ◌+◌, ℤ, pos, Bool, true, false, Option, none, some, List, [], ◌∷◌, ◌++◌, ◌==◌,
  eqb_ℤ, if◌then◌else◌, leb, length,
}
use tcpsnitch.Outcome.{Outcome, done, fault, overflow, out_of_bounds, diverges, bind_outcome}
use tcpsnitch.Bytes.{Text}
use tcpsnitch.Text.{codes, alloc_concat_path, alloc_append_int_to_path}
use tcpsnitch.Kernel.{Kernel, DirAnswer, there, absent, refused}
use tcpsnitch.CLib.{get_long_opt_or_defaultval, get_str_env}
use tcpsnitch.World.{
  World, Options, LoggerState, M, pure, ◌>>=◌, ◌>>◌, lift, kernel, get_world, modify_world,
}

-- The levels of logger.h.
abbrev pub warn : ℤ
warn = pos 2

-- A C string: the bytes before the first null byte, which has to be there.
c_string : Text → Outcome Text
c_string [] = fault out_of_bounds
c_string (c ∷ cs) = elim (c == 0) [
  | true ↦ done []
  | false ↦ elim (c_string cs) [ done t ↦ done (c ∷ t) | fault e ↦ fault e ]
]

-- `strrchr(s, '/')`: the text behind the last slash.
after_last_slash : Text → Option Text
after_last_slash [] = none
after_last_slash (c ∷ cs) = elim (after_last_slash cs) [
  | some t ↦ some t
  | none ↦ if c == b'/' then some cs else none
]

-- Nothing read is an error.
cmdline_read : Option Text → Option Text
cmdline_read none = none
cmdline_read (some []) = none
cmdline_read (some (c ∷ cs)) = some (c ∷ cs)

base_name : Text → Text
base_name cmdline = elim (after_last_slash cmdline) [ none ↦ cmdline | some app_name ↦ app_name ]

app_name_of : Option Text → Outcome (Option Text)
unfolding c_string base_name after_last_slash
app_name_of none = done none
app_name_of (some bytes) =
    bind_outcome (c_string bytes) (λ cmdline. done (some (base_name cmdline)))

pub alloc_app_name : Kernel → Outcome (Option Text)
unfolding cmdline_read app_name_of
alloc_app_name k = app_name_of (cmdline_read k.cmdline)

-- The search for a directory that is not there: numbers from `i` up, on fuel. `none` is a failure
-- of `opendir`.
pub find_dir : Kernel → Text → ℕ → ℕ → Outcome (Option Text)
find_dir k base_path zero i = fault diverges
find_dir k base_path (suc fuel) i = elim (k.opendir (alloc_append_int_to_path base_path i)) [
  | there ↦ find_dir k base_path fuel (i + 1)
  | absent ↦ done (some (alloc_append_int_to_path base_path i))
  | refused ↦ done none
]

make_dir : Kernel → Option Text → Option Text
make_dir k none = none
make_dir k (some full_path) = if k.mkdir full_path then some full_path else none

search_at : Kernel → Option Text → Outcome (Option Text)
unfolding find_dir make_dir
search_at k none = done none
search_at k (some base_path) =
    bind_outcome (find_dir k base_path (suc k.dir_limit) 0) (λ found. done (make_dir k found))

dir_for_app : Kernel → Text → Option Text → Outcome (Option Text)
unfolding search_at
dir_for_app k path none = done none
dir_for_app k path (some app_name) = search_at k (alloc_concat_path (some path) (some app_name))

pub create_logs_dir_at_path : Kernel → Text → Outcome (Option Text)
unfolding alloc_app_name dir_for_app
create_logs_dir_at_path k path = bind_outcome (alloc_app_name k) (dir_for_app k path)

open_std_streams : M (Unit {0})
open_std_streams k w = done (tt, record w { std_out = k.fdopen 3; std_err = k.fdopen 4 })

pub read_options : Kernel → Options
read_options k = record {
  opt_b = get_long_opt_or_defaultval k (codes "TCPSNITCH_OPT_B") (pos 4096);
  opt_c = get_long_opt_or_defaultval k (codes "TCPSNITCH_OPT_C") (pos 0);
  opt_d = get_str_env k (codes "TCPSNITCH_OPT_D");
  opt_f = get_long_opt_or_defaultval k (codes "TCPSNITCH_OPT_F") warn;
  opt_l = get_long_opt_or_defaultval k (codes "TCPSNITCH_OPT_L") warn;
  opt_u = get_long_opt_or_defaultval k (codes "TCPSNITCH_OPT_U") (pos 0);
  opt_t = get_long_opt_or_defaultval k (codes "TCPSNITCH_OPT_T") (pos 1000);
  opt_v = get_long_opt_or_defaultval k (codes "TCPSNITCH_OPT_V") (pos 0);
}

get_options : M (Unit {0})
unfolding read_options
get_options k w = done (tt, record w { options = read_options k })

-- logger.c: a file that cannot be opened leaves the log without one.
set_log_file : Kernel → Option Text → Option Text
set_log_file k none = none
set_log_file k (some path) = if k.fopen path then some path else none

unfoldable pub logger_init : Option Text → ℤ → ℤ → M (Unit {0})
unfolding set_log_file
logger_init path stdout_lvl file_lvl k w = done (
  tt,
  record w {
    logs = record { log_file = set_log_file k path; stderr_lvl = stdout_lvl; file_lvl = file_lvl };
  },
)

open_log : Option Text → Options → M (Unit {0})
unfolding logger_init
open_log none o = pure tt
open_log (some path) o = logger_init (some path) o.opt_l o.opt_f

init_logs : M (Unit {0})
unfolding open_log
init_logs = do
  w ← get_world
  open_log (alloc_concat_path w.logs_dir_path (some (codes "logs.txt"))) w.options

-- The thread itself is a series of calls of `dump_all_sock_events` between the other steps.
start_json_dumper_thread : M (Unit {0})
start_json_dumper_thread k w =
    done (tt, if k.pthread_create then record w { dumpers = suc w.dumpers } else w)

with_logs_dir : Option Text → M (Unit {0})
unfolding init_logs start_json_dumper_thread
with_logs_dir none = pure tt
with_logs_dir (some path) = do
  init_logs
  w ← get_world
  if eqb_ℤ w.options.opt_t (pos 0) then pure tt else start_json_dumper_thread

set_up : Option Text → M (Unit {0})
unfolding with_logs_dir
set_up none = pure tt
set_up (some conf_opt_d) = do
  k ← kernel
  path ← lift (create_logs_dir_at_path k conf_opt_d)
  modify_world (λ w. record w { logs_dir_path = path; logs_dir_freed = false })
  with_logs_dir path

-- What the first call does before it marks the library as initialized.
first_init : M (Unit {0})
unfolding open_std_streams get_options set_up
first_init = do open_std_streams; get_options; w ← get_world; set_up w.options.opt_d

pub init_tcpsnitch : M (Unit {0})
unfolding first_init
init_tcpsnitch = do
  w ← get_world
  if w.initialized then pure tt else first_init
  modify_world (λ w. record w { initialized = true })
