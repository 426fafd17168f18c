-- ===== src/Json/Memory.antt =====
-- Numbers read from memory, lowest byte first, and integers as jansson takes them.
use tcpsnitch.Base.{
  ℕ, ◌+◌, ◌*◌, ℤ, [], ◌∷◌, ltb, if◌then◌else◌, length, take, drop, to_int, to_long,
}
use tcpsnitch.Outcome.{Outcome, done, fault, out_of_bounds, bind_outcome}
use tcpsnitch.Bytes.{Text}

infixl 5 ◌>>=◌
abbrev pub ◌>>=◌ {ℓ κ} : {A : Type ℓ} {B : Type κ} → Outcome A → (A → Outcome B) → Outcome B
m >>= f = bind_outcome m f

-- `n` bytes of a block from an offset on; a read past its end is a fault.
unfoldable pub bytes_at : Text → (offset n : ℕ) → Outcome Text
bytes_at block offset n =
    if ltb (length block) (offset + n)
    then fault out_of_bounds
    else done (take n (drop offset block))

abbrev pub little_endian : Text → ℕ
little_endian [] = 0
little_endian (b ∷ bs) = b + 256 * little_endian bs

-- `*(int *)`, `*(unsigned int *)`, `*(unsigned short *)` and `*(long *)` of a place in a block.
unfoldable pub read_int : Text → ℕ → Outcome ℤ
read_int block offset = do bs ← bytes_at block offset 4; done (to_int (little_endian bs))

unfoldable pub read_uint : Text → ℕ → Outcome ℕ
read_uint block offset = do bs ← bytes_at block offset 4; done (little_endian bs)

unfoldable pub read_long : Text → ℕ → Outcome ℤ
read_long block offset = do bs ← bytes_at block offset 8; done (to_long (little_endian bs))
