-- ===== src/Spec/Due.antt =====
-- When sock_events.c reads TCP_INFO: should_dump_tcp_info against a test written out apart from it.
use tcpsnitch.Base.{
  ℕ, ◌+◌, ◌%◌, ◌^◌, ◌≡◌, refl, pos, to_long, ◌-ℤ◌, ltb_ℤ, Bool, ◌||◌, ◌&&◌, Bool-cases, inl, inr,
}
use tcpsnitch.Outcome.{Returns, returns}
use tcpsnitch.Event.{Socket}
use tcpsnitch.Kernel.{Kernel}
use tcpsnitch.CLib.{is_tcp_socket, time_micros}
use tcpsnitch.World.{World, Options, get_time_micros}
use tcpsnitch.Init.Once.{Untouched}
use tcpsnitch.Tracer.{should_dump_tcp_info, micros_elapsed, bytes_elapsed}
use tcpsnitch.Spec.{Setting}

-- At the time `now` TCP_INFO of the socket is due: it is a TCP socket, and more time than the option -u
-- gives, or more bytes than the option -b gives, have gone by since it was read last.
abbrev pub is_due : Kernel → Options → ℕ → Socket → Bool
is_due k o now s =
    is_tcp_socket k o.opt_c s.fd
    && (ltb_ℤ (pos 0) o.opt_u && ltb_ℤ o.opt_u (to_long now -ℤ s.last_info_dump_micros)
        || ltb_ℤ (pos 0) o.opt_b
          && ltb_ℤ o.opt_b
              (to_long ((s.bytes_sent + s.bytes_received) % 2 ^ 64) -ℤ s.last_info_dump_bytes))

-- Whether a hook reads TCP_INFO at its end, at the reading `c` of the clock.
abbrev pub is_asked : Kernel → Setting → ℕ → Socket → Bool
is_asked k u c s = is_due k u.options (time_micros k c) s && u.asks

pub should_dump-due :
    (k : Kernel) (s : Socket) (w : World)
    → Returns
        (λ (due, v). Untouched w v × (c : ℕ) × (due ≡ is_due k w.options (time_micros k c) s))
        (should_dump_tcp_info s k w)
unfolding should_dump_tcp_info micros_elapsed bytes_elapsed get_time_micros
should_dump-due k s w = elim (Bool-cases (is_tcp_socket k w.options.opt_c s.fd)) [
  | inl e ↦ rw e (elim (Bool-cases (ltb_ℤ (pos 0) w.options.opt_u)) [
    | inl o ↦ rw o (returns (same, w.clock, refl))
    | inr o ↦ rw o (returns (still, w.clock, refl))
  ])
  | inr e ↦ rw e (returns (still, w.clock, refl))
]
  where
    still : Untouched w w
    still = record { registry = refl; count = refl; trace = refl; alive = λ e. e }

    same : {c : ℕ} → Untouched w (record w { clock = c })
    same = record { registry = refl; count = refl; trace = refl; alive = λ e. e }
