-- ===== src/Text.antt =====
-- Texts built by string_builders.c: decimal numbers, file names and paths.
pub mod Digits
pub mod Paths
use Prim.Native.Char.{code}
use Prim.Native.String
use mathlib.Core.Logic.{dite}
use mathlib.Core.WellFounded.{Acc, WellFounded}
use native.Mathlib.Decide.{dec_lt}
use tcpsnitch.Base.{
  ℕ, zero, suc, ◌+◌, ◌-◌, ◌/◌, ◌%◌, ◌<◌, ℤ, pos, negsuc, Bool, Option, none, some, List, [], ◌∷◌,
  ◌++◌, String, arith, ltb, if◌then◌else◌, length, take,
}
use tcpsnitch.Outcome.{Outcome, done, fault, overflow, bind_outcome}
use tcpsnitch.Bytes.{Text}

-- The bytes of a literal.
abbrev pub codes : String → Text
codes String.[] = []
codes (String.◌∷◌ c s) = code c ∷ codes s

Acc-below : (k n : ℕ) → n < k → Acc ◌<◌ n
Acc-below zero n h = elim h [ ]
Acc-below (suc k) n h = Acc.intro n (λ m hm. Acc-below k m (omega arith))

pub lt_acc : (n : ℕ) → Acc ◌<◌ n
unfolding Acc-below
lt_acc n = Acc-below (suc n) n (omega arith)

-- The digits that `%d` prints for a number that is not negative.
pub decimal_acc : (n : ℕ) → Acc ◌<◌ n → Text
decimal_acc n (Acc.intro _ smaller) =
    dite (dec_lt 9 n)
      (λ h. decimal_acc (n / 10) (smaller (n / 10) (omega arith)) ++ (b'0' + n % 10) ∷ [])
      (λ _. (b'0' + n) ∷ [])

unfoldable pub decimal : ℕ → Text
unfolding decimal_acc lt_acc dec_lt
decimal n = decimal_acc n (lt_acc n)

-- `%d`
unfoldable pub print_int : ℤ → Text
unfolding decimal
print_int (pos n) = decimal n
print_int (negsuc n) = b'-' ∷ decimal (suc n)

-- `while (i > 9) { l++; i = i / 10; }`
pub int_len_loop : (i l : ℕ) → Acc ◌<◌ i → ℕ
int_len_loop i l (Acc.intro _ smaller) =
    dite (dec_lt 9 i) (λ h. int_len_loop (i / 10) (l + 1) (smaller (i / 10) (omega arith))) (λ _. l)

-- The number of digits of a number; 0 for a negative one, which is an error.
pub get_int_len : ℤ → ℕ
unfolding int_len_loop lt_acc dec_lt
get_int_len (pos i) = int_len_loop i 1 (lt_acc i)
get_int_len (negsuc i) = 0

-- `sprintf` into a buffer of `n` bytes: the text and its null byte have to fit.
unfoldable pub sprintf : ℕ → Text → Outcome Text
sprintf n t = if ltb (length t) n then done t else fault overflow

-- `snprintf` into a buffer of `n` bytes cuts the text.
unfoldable pub snprintf : ℕ → Text → Text
snprintf n t = take (n - 1) t

pub alloc_concat_path : Option Text → Option Text → Option Text
unfolding snprintf
alloc_concat_path none path2 = none
alloc_concat_path (some path1) none = none
alloc_concat_path (some path1) (some path2) =
    some (snprintf (length path1 + length path2 + 2) (path1 ++ b'/' ∷ path2))

-- `%03d`
pad3 : Text → Text
pad3 (a ∷ []) = b'0' ∷ b'0' ∷ a ∷ []
pad3 (a ∷ b ∷ []) = b'0' ∷ a ∷ b ∷ []
pad3 t = t

-- `i` counts directories up from 0.
pub alloc_append_int_to_path : Text → ℕ → Text
unfolding snprintf decimal pad3
alloc_append_int_to_path path1 i = path1 ++ snprintf (10 + 2) (b'_' ∷ pad3 (decimal i))

-- The file of a number in the directory `logs_dir_path`, `NULL` if there is no directory.
pub alloc_file_name : Option Text → ℤ → Text → Outcome (Option Text)
unfolding get_int_len print_int sprintf alloc_concat_path
alloc_file_name logs_dir_path file_name extension =
    bind_outcome
      (sprintf (get_int_len file_name + length extension + 1) (print_int file_name ++ extension))
      λ str. done (alloc_concat_path logs_dir_path (some str))

-- A buffer that is one byte longer than the number of digits.
pub alloc_str_from_int : ℤ → Text
unfolding get_int_len print_int snprintf
alloc_str_from_int i = snprintf (get_int_len i + 1) (print_int i)
