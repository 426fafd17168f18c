-- ===== src/Spec/Connect.antt =====
-- What `connect` (libc_overrides.c) does to the table of sockets, and when it goes wrong.
use tcpsnitch.Base.{
  ℕ, ◌≡◌, refl, ℤ, pos, negsuc, Bool, true, not, ◌&&◌, none, some, inl, inr, eqb_ℤ, Bool-cases,
}
use tcpsnitch.Outcome.{fault, bad_unlock, Returns, returns, Returns-bind}
use tcpsnitch.Bytes.{Text}
use tcpsnitch.Kernel.{Kernel}
use tcpsnitch.CLib.{is_inet_socket}
use tcpsnitch.World.{World}
use tcpsnitch.Init.LogsDir.{IsSane}
use tcpsnitch.Event.{Socket}
use tcpsnitch.Capture.Start.{Sniffer}
use tcpsnitch.Overrides.{answer}
use tcpsnitch.Overrides.Connect.{capture_if, connect_override}
use tcpsnitch.Spec.{setting_of, Abs, Shows}
use tcpsnitch.Spec.Dump.{Serialises}
use tcpsnitch.Spec.Capturing.{
  Switched, unswitched, sock_start_capture-Switched, sock_start_capture-none,
}
use tcpsnitch.Spec.Calls.{on_connect}
use tcpsnitch.Spec.Effects.{IsLegal}
use tcpsnitch.Spec.Observed.{Observed, at_fd, if_inet-Observed}

-- Whether `connect` is to capture the packets of a descriptor.
abbrev pub captures_at : Kernel → World → ℕ → Bool
captures_at k w fd = is_inet_socket k w.options.opt_c fd && not (eqb_ℤ w.options.opt_c (pos 0))

-- The socket of a descriptor is known, if it is one.
abbrev pub IsKnown : Abs → ℤ → Type 0
IsKnown a (negsuc n) = Unit {0}
IsKnown a (pos fd) = (s : Socket) × (a.table fd ≡ some s)

-- The states that a capture for a descriptor can lead to.
abbrev pub Captured : ℤ → Abs → Abs → Type 0
Captured (negsuc n) a b = b ≡ a
Captured (pos fd) a b = Switched fd a b

module _ (k before : Kernel) (sane : IsSane k) (json : Serialises k) (p : Sniffer) where
  capture_if-Captured :
      (fd : ℤ) (addr : Text) {a : Abs} {w : World}
      → IsKnown a fd
      → Shows a w
      → Returns (λ (_, v). (b : Abs) × Captured fd a b × Shows b v) (capture_if p fd addr before w)
  unfolding capture_if
  capture_if-Captured (negsuc n) addr known shows = returns (_, refl, shows)
  capture_if-Captured (pos fd) addr {w = w} (s, e) shows =
      elim (Bool-cases (captures_at before w fd)) [
        | inl on ↦ rw on (sock_start_capture-Switched before p s addr e shows)
        | inr off ↦ rw off (returns (_, unswitched, shows))
      ]

  -- For a descriptor whose socket is known, `connect` gives the program the result and the `errno` of
  -- the original function and leaves no lock: the start of a capture, if one is asked for, changes at
  -- most the capture of this socket, and the call is recorded if the descriptor is an Internet socket,
  -- and nothing else; where the call is legal, the surroundings are sane and every event can be made a
  -- JSON text.
  pub connect-Observed :
      (fd : ℤ) (addr : Text) (len : ℕ) (ret err : ℤ) {a : Abs} {w : World}
      → ((d : ℕ) → fd ≡ pos d → IsLegal (on_connect d ret err addr len))
      → IsKnown a fd
      → Shows a w
      → Returns
          (λ (x, v).
            (x ≡ answer ret err)
            × ((b c : Abs) × Captured fd a b
                × Observed k (setting_of true v) (at_fd fd (λ d. on_connect d ret err addr len)) b c
                × Shows c v))
          (connect_override p before fd addr len ret err k w)
  unfolding connect_override
  connect-Observed fd addr len ret err legal known shows =
      Returns-bind (capture_if-Captured fd addr known shows) λ (_, w1) (b, how, s1).
        Returns-bind (if_inet-Observed k sane json fd (λ d. on_connect d ret err addr len) legal s1)
          λ (_, v) (c, calls, s2). returns (refl, (b, c, how, calls, s2))

-- Where captures are asked for, `connect` on an Internet socket that is not known releases the lock of
-- the table while it does not hold it.
pub connect-unknown :
    (k before : Kernel) (p : Sniffer) (fd : ℕ) (addr : Text) (len : ℕ) (ret err : ℤ) {a : Abs}
    {w : World}
    → captures_at before w fd ≡ true
    → a.table fd ≡ none
    → Shows a w
    → connect_override p before (pos fd) addr len ret err k w ≡ fault bad_unlock
unfolding connect_override capture_if
connect-unknown k before p fd addr len ret err on e shows =
    rw (on, sock_start_capture-none before p fd addr e shows) refl
