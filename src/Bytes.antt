-- ===== src/Bytes.antt =====
-- Memory as bytes, flags as bits: the parts of the C library that the sources call for them.
pub mod Laws
use tcpsnitch.Base.{
  ℕ, ◌≤◌, Bool, not, Option, none, some, List, ◌++◌, ltb, ◌||◌, ◌==◌, if◌then◌else◌, length, take,
  drop, bit_and,
}
use tcpsnitch.Outcome.{Outcome, done, fault, overflow}

-- A text or a block of memory, byte by byte. A text does not hold its final null byte.
abbrev pub Text : Type 0
Text = List ℕ

-- `memcpy(dst, src, n)`: a copy beyond the end of either block is a fault.
unfoldable pub memcpy : Text → Text → ℕ → Outcome Text
memcpy dst src n =
    if ltb (length src) n || ltb (length dst) n
    then fault overflow
    else done (take n src ++ drop n dst)

-- `(bool)(flags & mask)`
unfoldable pub has_flag : ℕ → ℕ → Bool
has_flag flags mask = not (bit_and flags mask == 0)
