-- ===== src/Tracer/Capture.antt =====
-- The start of a packet capture for a socket (sock_events.c).
use tcpsnitch.Base.{
  ℕ, zero, suc, ◌+◌, ℤ, pos, Bool, Option, none, some, [], ◌∷◌, ◌++◌, ◌==◌, if◌then◌else◌,
}
use tcpsnitch.Bytes.{Text}
use tcpsnitch.Event.{Socket}
use tcpsnitch.Registry.{ra_get_and_lock_elem, ra_unlock_elem}
use tcpsnitch.CLib.{af_inet6}
use tcpsnitch.World.{M, pure, ◌>>=◌, ◌>>◌, lift, on_registry, get_world, modify_world}
use tcpsnitch.Capture.{family, alloc_capture_filter}
use tcpsnitch.Capture.Start.{Sniffer, bound, in_use, not_bound, start_capture}
use tcpsnitch.Base.{minus_one}
use tcpsnitch.Sockets.{alloc_pcap_path_str}
use tcpsnitch.Tracer.{modify_socket}

-- MIN_PORT, and how many ports there are up to MAX_PORT.
abbrev pub min_port : ℕ
min_port = 32768

abbrev pub port_count : ℕ
port_count = 28232

unfoldable pub call_bind : ℕ → Bool → ℕ → M (Unit {0})
call_bind fd ipv6 port = modify_world (λ w. record w { binds = w.binds ++ (fd, ipv6, port) ∷ [] })

-- `n` ports from `port` up are tried, until one is free or cannot be had for another reason.
unfoldable pub force_bind_loop : Sniffer → (fd : ℕ) (ipv6 : Bool) (n port : ℕ) → M ℤ
unfolding call_bind
force_bind_loop p fd ipv6 zero port = pure minus_one
force_bind_loop p fd ipv6 (suc n) port = do
  call_bind fd ipv6 port
  elim (p.orig_bind fd ipv6 port) [
    | bound ↦ pure (pos 0)
    | in_use ↦ force_bind_loop p fd ipv6 n (port + 1)
    | not_bound ↦ pure minus_one
  ]

unfoldable pub force_bind : Sniffer → ℕ → Bool → M ℤ
unfolding force_bind_loop
force_bind p fd ipv6 = force_bind_loop p fd ipv6 port_count min_port

-- The result of `force_bind` is not looked at.
unfoldable pub bind_first : Sniffer → ℕ → Socket → Text → M (Unit {0})
unfolding force_bind
bind_first p fd sock addr_to =
    if sock.bound then pure tt else force_bind p fd (family addr_to == af_inet6) >>= λ _. pure tt

abbrev pub addr_from : Socket → Option Text
addr_from sock = if sock.bound then some sock.bound_addr else none

unfoldable pub capture_to : Sniffer → ℕ → Socket → Text → Option Text → M (Unit {0})
capture_to p fd sock addr_to none = pure tt
capture_to p fd sock addr_to (some path) =
    elim (alloc_capture_filter p.inet_ntop (addr_from sock) addr_to) [
      | none ↦ pure tt
      | some filter ↦ do
        flag ← start_capture p filter path
        modify_socket fd (λ s. record s { capture_switch = flag })
    ]

unfoldable pub capture_locked : Sniffer → ℕ → Text → Option Socket → M (Unit {0})
unfolding bind_first capture_to
capture_locked p fd addr_to none = pure tt
capture_locked p fd addr_to (some sock) = do
  bind_first p fd sock addr_to
  w ← get_world
  path ← lift (alloc_pcap_path_str w sock)
  capture_to p fd sock addr_to path

-- The socket is unlocked on every way out, also where none has been found.
unfoldable pub sock_start_capture : Sniffer → ℕ → Text → M (Unit {0})
unfolding capture_locked
sock_start_capture p fd addr_to = do
  sock ← on_registry (ra_get_and_lock_elem fd)
  capture_locked p fd addr_to sock
  on_registry (ra_unlock_elem fd)
