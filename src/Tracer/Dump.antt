-- ===== src/Tracer/Dump.antt =====
-- Writing out the events of all sockets, and the new start in a forked child (sock_events.c and
-- init.c).
use tcpsnitch.Base.{ℕ, zero, suc, ◌+◌, true, false, not, Option, none, some, if◌then◌else◌, ltb}
use tcpsnitch.Outcome.{null_deref}
use tcpsnitch.Event.{Socket}
use tcpsnitch.Registry.{
  ra_get_and_lock_elem, ra_unlock_elem, ra_remove_elem, ra_is_present, ra_get_size,
}
use tcpsnitch.World.{M, pure, fail, ◌>>=◌, ◌>>◌, on_registry, get_world, modify_world}
use tcpsnitch.Init.{logger_init, warn}
use tcpsnitch.Sockets.{dump_events_as_json, sock_ev_forked_socket}
use tcpsnitch.Tracer.{modify_socket}

unfoldable pub dump_locked : ℕ → Option Socket → M (Unit {0})
dump_locked i none = pure tt
dump_locked i (some sock) = do sock' ← dump_events_as_json sock; modify_socket i (λ _. sock')

unfoldable pub dump_socket_at : ℕ → M (Unit {0})
unfolding dump_locked
dump_socket_at i = do
  present ← on_registry (ra_is_present i)
  if not present then pure tt else (do
    sock ← on_registry (ra_get_and_lock_elem i)
    dump_locked i sock
    on_registry (ra_unlock_elem i))

-- `for (long i = 0; i < ra_get_size(); i++)`: the size is asked for in each round, and `rounds` is
-- the number of rounds that the size leaves.
unfoldable pub dump_from : ℕ → ℕ → M (Unit {0})
unfolding dump_socket_at
dump_from zero i = pure tt
dump_from (suc rounds) i = do
  size ← on_registry ra_get_size
  if ltb i size then (do dump_socket_at i; dump_from rounds (i + 1)) else pure tt

unfoldable pub dump_all_sock_events : M (Unit {0})
unfolding dump_from
dump_all_sock_events = do size ← on_registry ra_get_size; dump_from (suc size) 0

-- A round of the endless loop of `json_dumper_thread` (init.c), which then sleeps.
unfoldable pub json_dumper_round : M (Unit {0})
json_dumper_round = dump_all_sock_events

-- The destructor of the library (init.c): at the end of the process.
unfoldable pub cleanup : M (Unit {0})
cleanup = dump_all_sock_events

unfoldable pub restart_with : ℕ → Option Socket → M (Unit {0})
restart_with i none = fail null_deref
restart_with i (some sock) = sock_ev_forked_socket i sock.sock_info

-- The socket that was there is freed with its events.
unfoldable pub restart_socket_at : ℕ → M (Unit {0})
unfolding restart_with
restart_socket_at i = do
  present ← on_registry (ra_is_present i)
  if not present then pure tt else (do sock ← on_registry (ra_remove_elem i); restart_with i sock)

unfoldable pub restart_from : ℕ → ℕ → M (Unit {0})
unfolding restart_socket_at
restart_from zero i = pure tt
restart_from (suc rounds) i = do
  size ← on_registry ra_get_size
  if ltb i size then (do restart_socket_at i; restart_from rounds (i + 1)) else pure tt

unfoldable pub sock_ev_reset : M (Unit {0})
unfolding restart_from
sock_ev_reset = do
  modify_world (λ w. record w { connections_count = zero })
  size ← on_registry ra_get_size
  restart_from (suc size) 0

-- `tcpsnitch_free`: the pointers are kept. The streams, closed here, are opened again by the next
-- `init_tcpsnitch` before they are used.
unfoldable pub tcpsnitch_free : M (Unit {0})
tcpsnitch_free =
    modify_world (λ v. record v { std_out = false; std_err = false; logs_dir_freed = true })

-- The first thing that a forked child does.
unfoldable pub reset_tcpsnitch : M (Unit {0})
unfolding tcpsnitch_free
reset_tcpsnitch = do
  w ← get_world
  if not w.initialized then pure tt else (do
    tcpsnitch_free
    logger_init none warn warn
    modify_world (λ v. record v { initialized = false })
    sock_ev_reset)
