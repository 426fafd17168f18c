-- ===== src/Bytes/Laws.antt =====
-- Copies of blocks that fit.
use tcpsnitch.Base.{
  ℕ, ◌≤◌, ◌≡◌, ◌++◌, arith, length, take, drop, length-append, length-take_le, length-drop, le→ltb,
}
use tcpsnitch.Outcome.{done, Returns, returns}
use tcpsnitch.Bytes.{Text, memcpy}

pub memcpy-fits :
    (dst src : Text) (n : ℕ)
    → n ≤ length src
    → n ≤ length dst
    → memcpy dst src n ≡ done (take n src ++ drop n dst)
unfolding memcpy
memcpy-fits dst src n h k = rw (le→ltb (length src) n h, le→ltb (length dst) n k)

pub length-memcpy :
    (dst src : Text) (n : ℕ)
    → n ≤ length src
    → n ≤ length dst
    → Returns (λ b. length b ≡ length dst) (memcpy dst src n)
length-memcpy dst src n h k = rw (memcpy-fits dst src n h k) (
    returns (
      omega (
        arith,
        length-append (take n src) (drop n dst),
        length-take_le n src h,
        length-drop n dst,
      )))
