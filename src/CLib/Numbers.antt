-- ===== src/CLib/Numbers.antt =====
-- Numbers of the environment, read by `parse_long` of lib.c.
use tcpsnitch.Base.{
  ℕ, ◌≢◌, ap, ◌∙◌, ◌+◌, ◌-◌, ◌*◌, ◌≤◌, ◌≡◌, refl, ℤ, pos, minus_one, true, false, [], ◌∷◌, arith,
  ltb, if◌then◌else◌,
}
use tcpsnitch.Bytes.{Text}
use tcpsnitch.Text.{decimal}
use tcpsnitch.Text.Digits.{value, value-decimal, AllDigits, decimal-AllDigits, decimal-ne_nil}
use tcpsnitch.Kernel.{Kernel}
use tcpsnitch.CLib.{
  read_digits, is_digit, strtol, parse_long, long_max, get_long_opt_or_defaultval, is_space,
  clamp_long, accept_long,
}

read_digits-all : (acc : ℕ) (t : Text) → AllDigits t → read_digits acc t ≡ (value acc t, [])
unfolding read_digits value is_digit
read_digits-all acc [] h = refl
read_digits-all acc (c ∷ cs) h = ground (arith, read_digits-all (acc * 10 + (c - b'0')) cs h.2)

digit_not_space : (c : ℕ) → b'0' ≤ c → c ≤ b'9' → is_space c ≡ false
unfolding is_space
digit_not_space c h k = ground arith

digit_is_digit : (c : ℕ) → b'0' ≤ c → c ≤ b'9' → is_digit c ≡ true
unfolding is_digit
digit_is_digit c h k = ground arith

-- A digit at the front starts a number that is not negative.
strtol-digits :
    (c : ℕ) (cs : Text)
    → AllDigits (c ∷ cs)
    → strtol (c ∷ cs) ≡ (clamp_long false (value 0 (c ∷ cs)), [])
unfolding strtol
strtol-digits c cs h =
    rw (digit_not_space c h.0 h.1)
      (ground (arith, digit_is_digit c h.0 h.1, read_digits-all 0 (c ∷ cs) h))

-- LONG_MAX is taken for an overflow.
parse_long-digits :
    (t : Text)
    → AllDigits t
    → t ≢ []
    → parse_long t ≡ (if ltb (value 0 t) long_max then pos (value 0 t) else minus_one)
unfolding parse_long accept_long clamp_long
parse_long-digits [] h e = absurd (e refl)
parse_long-digits (c ∷ cs) h e = rw (strtol-digits c cs h) (ground arith)

-- The decimal form of a number below LONG_MAX is read back as that number; any larger one, LONG_MAX
-- among them, is refused with -1.
pub parse_long-decimal :
    (n : ℕ) → parse_long (decimal n) ≡ (if ltb n long_max then pos n else minus_one)
parse_long-decimal n =
    parse_long-digits (decimal n) (decimal-AllDigits n) (decimal-ne_nil n)
    ∙ ap (λ m. if ltb m long_max then pos m else minus_one) (value-decimal n)

-- A variable that is not set, or whose text goes on behind its number, makes an option -1
-- whatever its default value is.
pub get_long_opt-ignores_default :
    (k : Kernel) (opt : Text) (d d' : ℤ)
    → get_long_opt_or_defaultval k opt d ≡ get_long_opt_or_defaultval k opt d'
unfolding get_long_opt_or_defaultval
get_long_opt-ignores_default k opt d d' = refl
