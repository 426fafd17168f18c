-- ===== src/Text/Digits.antt =====
-- Decimal numbers and the buffers that string_builders.c sizes for them.
use mathlib.Core.Logic.{dif_pos, dif_neg}
use native.Mathlib.Bridge.{le_prop}
use mathlib.Core.WellFounded.{Acc}
use native.Mathlib.Decide.{dec_lt}
use tcpsnitch.Base.{
  ℕ, suc, ◌+◌, ◌-◌, ◌*◌, ◌/◌, ◌≤◌, ◌<◌, ◌≡◌, ◌≢◌, zero, refl, ap, pos, [], ◌∷◌, ◌++◌, arith, length,
  length-append,
}
use tcpsnitch.Bytes.{Text}
use tcpsnitch.Text.{decimal_acc, decimal, int_len_loop, get_int_len, lt_acc}

int_len_loop-length :
    (n l : ℕ) (w : Acc ◌<◌ n) → int_len_loop n l w + 1 ≡ l + length (decimal_acc n w)
unfolding int_len_loop decimal_acc
int_len_loop-length n l (Acc.intro _ smaller) = grind (
  arith,
  λ (p : n / 10 < n). int_len_loop-length (n / 10) (l + 1) (smaller (n / 10) p),
  length-append,
)

-- For every number that is not negative, `get_int_len` is the number of characters that `%d` prints.
pub get_int_len-length : (n : ℕ) → get_int_len (pos n) ≡ length (decimal n)
unfolding get_int_len decimal
get_int_len-length n = omega (arith, int_len_loop-length n 1 (lt_acc n))

-- The number that a text of digits stands for, read after `acc`.
unfoldable pub value : ℕ → Text → ℕ
value acc [] = acc
value acc (c ∷ cs) = value (acc * 10 + (c - b'0')) cs

value-append : (acc : ℕ) (xs ys : Text) → value acc (xs ++ ys) ≡ value (value acc xs) ys
unfolding value
value-append acc [] ys = refl
value-append acc (x ∷ xs) ys = value-append (acc * 10 + (x - b'0')) xs ys

value-decimal_acc : (n : ℕ) (w : Acc ◌<◌ n) → value 0 (decimal_acc n w) ≡ n
unfolding value decimal_acc
value-decimal_acc n (Acc.intro _ smaller) =
    grind (arith, λ (p : n / 10 < n). value-decimal_acc (n / 10) (smaller (n / 10) p), value-append)

pub value-decimal : (n : ℕ) → value 0 (decimal n) ≡ n
unfolding decimal
value-decimal n = value-decimal_acc n (lt_acc n)

-- A text of nothing but digits.
abbrev pub AllDigits : Text → Type 0
AllDigits [] = Unit {0}
AllDigits (c ∷ cs) = (b'0' ≤ c) × (c ≤ b'9') × AllDigits cs

AllDigits-append : (xs ys : Text) → AllDigits xs → AllDigits ys → AllDigits (xs ++ ys)
AllDigits-append [] ys h k = k
AllDigits-append (x ∷ xs) ys h k = (h.0, h.1, AllDigits-append xs ys h.2 k)

decimal_acc-AllDigits : (n : ℕ) (w : Acc ◌<◌ n) → AllDigits (decimal_acc n w)
unfolding decimal_acc
decimal_acc-AllDigits n (Acc.intro _ smaller) = elim (dec_lt 9 n) [
  | yes h ↦ rw (dif_pos (dec_lt 9 n) le_prop h) (
      AllDigits-append _ _ (decimal_acc-AllDigits (n / 10) (smaller (n / 10) (omega arith)))
        (omega arith))
  | no h ↦ rw (dif_neg (dec_lt 9 n) h) (omega arith)
]

pub decimal-AllDigits : (n : ℕ) → AllDigits (decimal n)
unfolding decimal
decimal-AllDigits n = decimal_acc-AllDigits n (lt_acc n)

pub decimal-ne_nil : (n : ℕ) → decimal n ≢ []
unfolding decimal value
decimal-ne_nil zero e = cc
decimal-ne_nil (suc n) e = absurd (omega (arith, value-decimal (suc n), ap (value 0) e))

abbrev pub pow10 : ℕ → ℕ
pow10 zero = 1
pow10 (suc k) = 10 * pow10 k

decimal_acc-length_le :
    (k n : ℕ) (w : Acc ◌<◌ n) → n < pow10 (suc k) → length (decimal_acc n w) ≤ suc k
unfolding decimal_acc
decimal_acc-length_le zero n (Acc.intro _ smaller) b = elim (dec_lt 9 n) [
  | yes h ↦ absurd (omega arith)
  | no h ↦ rw (dif_neg (dec_lt 9 n) h) (omega arith)
]
decimal_acc-length_le (suc j) n (Acc.intro _ smaller) b = grind (
  arith,
  λ (p : n / 10 < n) (q : n / 10 < pow10 (suc j)).
      decimal_acc-length_le j (n / 10) (smaller (n / 10) p) q,
  length-append,
)

-- A number below 10 ^ (k + 1) has at most k + 1 digits.
pub decimal-length_le : (k n : ℕ) → n < pow10 (suc k) → length (decimal n) ≤ suc k
unfolding decimal
decimal-length_le k n b = decimal_acc-length_le k n (lt_acc n) b
