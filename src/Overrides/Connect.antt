-- ===== src/Overrides/Connect.antt =====
-- `connect` of libc_overrides.c, which starts a packet capture.
use tcpsnitch.Base.{ℕ, ℤ, pos, negsuc, not, ◌&&◌, eqb_ℤ, if◌then◌else◌}
use tcpsnitch.Bytes.{Text}
use tcpsnitch.Kernel.{Kernel}
use tcpsnitch.CLib.{is_inet_socket}
use tcpsnitch.World.{M, pure, ◌>>=◌, ◌>>◌, kernel, get_world}
use tcpsnitch.Capture.Start.{Sniffer}
use tcpsnitch.Tracer.Handlers.{sock_ev_connect}
use tcpsnitch.Tracer.Capture.{sock_start_capture}
use tcpsnitch.Overrides.{Answer, answer, if_inet}

-- `if (is_inet_socket(fd) && conf_opt_c)`
unfoldable pub capture_if : Sniffer → ℤ → Text → M (Unit {0})
capture_if p (negsuc n) addr = pure tt
capture_if p (pos fd) addr = do
  k ← kernel
  w ← get_world
  if is_inet_socket k w.options.opt_c fd && not (eqb_ℤ w.options.opt_c (pos 0))
      then sock_start_capture p fd addr
      else pure tt

-- `before` holds the answers that are met before the original `connect` is called.
unfoldable pub connect_override :
    Sniffer → Kernel → (fd : ℤ) (addr : Text) (len : ℕ) (ret err : ℤ) → M Answer
unfolding capture_if if_inet
connect_override p before fd addr len ret err = do
  (λ _ w. capture_if p fd addr before w)
  if_inet fd (λ d. sock_ev_connect d ret err addr len)
  pure (answer ret err)
