-- ===== src/Init/LogsDir.antt =====
-- The directory that init.c creates for the traces of a process.
use tcpsnitch.Base.{
  ℕ, zero, suc, ◌+◌, ◌≤◌, ◌<◌, ◌≡◌, ◌≢◌, refl, sym, ap, ◌∙◌, false, ◌⊎◌, inl, inr, Option, none,
  some, [], ◌∷◌, arith, ◌==◌, Bool-cases,
}
use tcpsnitch.Outcome.{Returns, returns, eq_of_Returns, Returns-mono, Returns-bind}
use tcpsnitch.Bytes.{Text}
use tcpsnitch.Text.{alloc_append_int_to_path}
use tcpsnitch.Kernel.{Kernel, DirAnswer, there, absent, refused}
use tcpsnitch.Init.{
  c_string, cmdline_read, app_name_of, search_at, find_dir, dir_for_app, create_logs_dir_at_path,
}

abbrev pub HasNull : Text → Type 0
HasNull [] = ⊥
HasNull (c ∷ cs) = (c ≡ 0) ⊎ HasNull cs

-- What the code relies on: the arguments in /proc/self/cmdline end with null bytes, and a
-- directory has finitely many entries.
pub record IsSane (k : Kernel) : Type 0 where
  pub cmdline_ends : (bytes : Text) → k.cmdline ≡ some bytes → HasNull bytes
  pub finite : (base : Text) → k.opendir (alloc_append_int_to_path base k.dir_limit) ≢ there

-- The outcome of a search from the number `i` up.
pub data Found (k : Kernel) (base : Text) (i : ℕ) (o : Option Text) : Type 0 where
  free :
      (n : ℕ)
      → i ≤ n
      → o ≡ some (alloc_append_int_to_path base n)
      → k.opendir (alloc_append_int_to_path base n) ≡ absent
      → ((m : ℕ) → i ≤ m → m < n → k.opendir (alloc_append_int_to_path base m) ≡ there)
      → Found k base i o
  gave_up :
      (n : ℕ)
      → i ≤ n
      → o ≡ none
      → k.opendir (alloc_append_int_to_path base n) ≡ refused
      → ((m : ℕ) → i ≤ m → m < n → k.opendir (alloc_append_int_to_path base m) ≡ there)
      → Found k base i o

DirAnswer-cases : (d : DirAnswer) → (d ≡ there) ⊎ ((d ≡ absent) ⊎ (d ≡ refused))
DirAnswer-cases there = inl refl
DirAnswer-cases absent = inr (inl refl)
DirAnswer-cases refused = inr (inr refl)

module _ (k : Kernel) (base : Text) where
  below :
      (i n : ℕ)
      → k.opendir (alloc_append_int_to_path base i) ≡ there
      → ((m : ℕ) → i + 1 ≤ m → m < n → k.opendir (alloc_append_int_to_path base m) ≡ there)
      → (m : ℕ) → i ≤ m
      → m < n
      → k.opendir (alloc_append_int_to_path base m) ≡ there
  below i n e h m p q = elim (Bool-cases (m == i)) [
    | inl b ↦ let at : m ≡ i = ground arith in rw at e
    | inr b ↦ h m (ground arith) q
  ]

  Found-next :
      (i : ℕ) {o : Option Text}
      → k.opendir (alloc_append_int_to_path base i) ≡ there
      → Found k base (i + 1) o
      → Found k base i o
  Found-next i e (free n p q r h) = free n (omega arith) q r (below i n e h)
  Found-next i e (gave_up n p q r h) = gave_up n (omega arith) q r (below i n e h)

  find_dir-from :
      (fuel i : ℕ)
      → i + fuel ≡ suc k.dir_limit
      → i ≤ k.dir_limit
      → k.opendir (alloc_append_int_to_path base k.dir_limit) ≢ there
      → Returns (Found k base i) (find_dir k base fuel i)
  unfolding find_dir
  find_dir-from zero i e b lim = absurd (omega arith)
  find_dir-from (suc fuel) i e b lim =
      elim (DirAnswer-cases (k.opendir (alloc_append_int_to_path base i))) [
        | inl t ↦
            rw (t, find_dir)
              (Returns-mono (find_dir-from fuel (i + 1) (omega arith) (ne_last t) lim)
                (λ o. Found-next i t))
        | inr (inl n) ↦
            rw (n, find_dir) (returns (free i (omega arith) refl n (λ m p q. absurd (omega arith))))
        | inr (inr r) ↦
            rw (r, find_dir)
              (returns (gave_up i (omega arith) refl r (λ m p q. absurd (omega arith))))
      ]
    where
      ne_last : k.opendir (alloc_append_int_to_path base i) ≡ there → i + 1 ≤ k.dir_limit
      ne_last t = elim (Bool-cases (i == k.dir_limit)) [
        | inl last ↦
            let at : i ≡ k.dir_limit = ground arith in
            absurd (lim (ap (λ n. k.opendir (alloc_append_int_to_path base n)) (sym at) ∙ t))
        | inr other ↦ ground arith
      ]

  -- Where the surroundings are sane (a directory has finitely many entries), the search ends: with the path of the least number
  -- whose directory is absent, all smaller ones being there, or with null at the first number
  -- where `opendir` fails in another way, all smaller ones being there.
  pub find_dir-Found : IsSane k → Returns (Found k base 0) (find_dir k base (suc k.dir_limit) 0)
  find_dir-Found sane =
      find_dir-from (suc k.dir_limit) 0 (omega arith) (omega arith) (sane.finite base)

module _ (k : Kernel) where
  c_string-HasNull : (bytes : Text) → HasNull bytes → Returns (λ t. Unit {0}) (c_string bytes)
  unfolding c_string
  c_string-HasNull [] h = absurd h
  c_string-HasNull (c ∷ cs) h = elim (Bool-cases (c == 0)) [
    | inl b ↦ rw (b, c_string) (returns tt)
    | inr b ↦
        let (t, e, _) = eq_of_Returns (c_string-HasNull cs (ends b h)) in
        rw (b, c_string, e) (returns tt)
  ]
    where
      ends : (c == 0) ≡ false → (c ≡ 0) ⊎ HasNull cs → HasNull cs
      ends b (inl z) = absurd (ground arith)
      ends b (inr r) = r

  cmdline_read-HasNull :
      (o : Option Text)
      → ((bytes : Text) → o ≡ some bytes → HasNull bytes)
      → Returns (λ _. Unit {0}) (app_name_of (cmdline_read o))
  unfolding app_name_of cmdline_read
  cmdline_read-HasNull none h = returns tt
  cmdline_read-HasNull (some []) h = returns tt
  cmdline_read-HasNull (some (c ∷ cs)) h =
      Returns-bind (c_string-HasNull (c ∷ cs) (h (c ∷ cs) refl)) (λ t _. returns tt)

  search_at-total : IsSane k → (o : Option Text) → Returns (λ _. Unit {0}) (search_at k o)
  unfolding search_at
  search_at-total sane none = returns tt
  search_at-total sane (some base) =
      Returns-bind (find_dir-Found k base sane) (λ found _. returns tt)

  dir_for_app-total :
      IsSane k → (path : Text) (o : Option Text) → Returns (λ _. Unit {0}) (dir_for_app k path o)
  unfolding dir_for_app
  dir_for_app-total sane path none = returns tt
  dir_for_app-total sane path (some name) = search_at-total sane _

  -- With a command line that ends and finitely many directories, `create_logs_dir_at_path` ends
  -- without a fault.
  pub create_logs_dir-total :
      IsSane k → (path : Text) → Returns (λ _. Unit {0}) (create_logs_dir_at_path k path)
  unfolding create_logs_dir_at_path
  create_logs_dir-total sane path =
      Returns-bind (cmdline_read-HasNull k.cmdline sane.cmdline_ends)
        (λ name _. dir_for_app-total sane path name)
