-- ===== src/Text/Paths.antt =====
-- The names of the trace files that string_builders.c builds.
use tcpsnitch.Base.{
  ℕ, suc, ◌+◌, ◌≤◌, ◌<◌, ◌-◌, ◌≡◌, refl, sym, ap, ◌∙◌, pos, Option, some, [], ◌∷◌, ◌++◌, arith,
  length, length-append, lt→ltb, take,
}
use mathlib.Core.List.{append_cancel_left, append_cancel_right}
use tcpsnitch.Outcome.{done}
use tcpsnitch.Bytes.{Text}
use tcpsnitch.Text.{decimal, get_int_len, alloc_file_name, alloc_concat_path, snprintf}
use tcpsnitch.Text.Digits.{get_int_len-length, value, value-decimal}

pub take_all : (xs : Text) (n : ℕ) → length xs ≤ n → take n xs ≡ xs
take_all [] ℕ.zero h = refl
take_all [] (suc n) h = refl
take_all (x ∷ xs) ℕ.zero h = absurd (omega arith)
take_all (x ∷ xs) (suc n) h = ap (◌∷◌ x) (take_all xs n (omega arith))

-- A text that its buffer holds is printed whole.
pub snprintf-fits : (n : ℕ) (t : Text) → length t < n → snprintf n t ≡ t
unfolding snprintf
snprintf-fits n t h = take_all t (n - 1) (omega arith)

-- Two parts are joined with a slash, and the buffer of `alloc_concat_path` holds the whole path.
pub alloc_concat_path-some :
    (a b : Text) → alloc_concat_path (some a) (some b) ≡ some (a ++ b'/' ∷ b)
unfolding alloc_concat_path
alloc_concat_path-some a b =
    ap some (take_all (a ++ b'/' ∷ b) _ (omega (arith, length-append a (b'/' ∷ b))))

-- For every number that is not negative and every extension, the buffer of `alloc_file_name`
-- holds the name with its null byte, and the result is the path of that name in the directory,
-- or null where there is no directory.
pub alloc_file_name-path :
    (dir : Option Text) (n : ℕ) (extension : Text)
    → alloc_file_name dir (pos n) extension
      ≡ done (alloc_concat_path dir (some (decimal n ++ extension)))
unfolding alloc_file_name
alloc_file_name-path dir n extension =
    let fits : length (decimal n ++ extension) < get_int_len (pos n) + length extension + 1 =
      omega (arith, get_int_len-length n, length-append (decimal n) extension) in
    rw (lt→ltb _ _ fits)

decimal-injective : (m n : ℕ) → decimal m ≡ decimal n → m ≡ n
decimal-injective m n e = sym (value-decimal m) ∙ ap (value 0) e ∙ value-decimal n

pub alloc_file_name-some :
    (dir : Text) (n : ℕ) (extension : Text)
    → alloc_file_name (some dir) (pos n) extension
      ≡ done (some (dir ++ b'/' ∷ (decimal n ++ extension)))
alloc_file_name-some dir n extension =
    alloc_file_name-path (some dir) n extension
    ∙ ap done (alloc_concat_path-some dir (decimal n ++ extension))

-- In one directory and with one extension, two numbers with the same file are the same number.
pub alloc_file_name-injective :
    (dir : Text) (m n : ℕ) (extension : Text)
    → alloc_file_name (some dir) (pos m) extension ≡ alloc_file_name (some dir) (pos n) extension
    → m ≡ n
alloc_file_name-injective dir m n extension e =
    let paths =
      sym (alloc_file_name-some dir m extension) ∙ e ∙ alloc_file_name-some dir n extension in
    let names : decimal m ++ extension ≡ decimal n ++ extension =
      tail_of (append_cancel_left dir _ _ (some_of (done_of paths))) in
    decimal-injective m n (append_cancel_right _ _ extension names)
  where
    done_of : {a b : Option Text} → done a ≡ done b → a ≡ b
    done_of h = cc

    some_of : {a b : Text} → some a ≡ some b → a ≡ b
    some_of h = cc

    tail_of : {c : ℕ} {a b : Text} → (c ∷ a) ≡ (c ∷ b) → a ≡ b
    tail_of h = cc
