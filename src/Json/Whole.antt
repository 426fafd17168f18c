-- ===== src/Json/Whole.antt =====
-- json_builder.c: the parts of events whose blocks are long enough are built without a fault.
use tcpsnitch.Base.{
  ℕ, zero, suc, ◌+◌, ◌≤◌, List, [], ◌∷◌, arith, ltb, le→ltb, Bool-cases, inl, inr, length, to_long,
}
use tcpsnitch.Outcome.{Outcome, Returns, returns, Returns-bind}
use tcpsnitch.Bytes.{Text}
use tcpsnitch.Event.{Iovec, Msghdr, Mmsghdr}
use tcpsnitch.Event.Whole.{rounds, FitsIovec, FitsMsghdr, FitsMessages, no_messages, and_message}
use tcpsnitch.Json.{Jansson}
use tcpsnitch.Json.Memory.{bytes_at, read_int, read_uint, read_long}
use tcpsnitch.Json.Parts.{
  append_sizes, build_iovec, build_control_data, build_msghdr, append_messages, cmsghdr_size,
}

-- A run without a fault.
abbrev pub Total {ℓ} : {A : Type ℓ} → Outcome A → Type ℓ
Total r = Returns (λ _. Unit {0}) r

pub bytes_at-Total :
    (block : Text) (offset n : ℕ) → offset + n ≤ length block → Total (bytes_at block offset n)
unfolding bytes_at
bytes_at-Total block offset n h = rw (le→ltb _ _ h) (returns tt)

pub read_int-Total :
    (block : Text) (offset : ℕ) → offset + 4 ≤ length block → Total (read_int block offset)
unfolding read_int
read_int-Total block offset h = Returns-bind (bytes_at-Total block offset 4 h) (λ _ _. returns tt)

pub read_uint-Total :
    (block : Text) (offset : ℕ) → offset + 4 ≤ length block → Total (read_uint block offset)
unfolding read_uint
read_uint-Total block offset h = Returns-bind (bytes_at-Total block offset 4 h) (λ _ _. returns tt)

pub read_long-Total :
    (block : Text) (offset : ℕ) → offset + 8 ≤ length block → Total (read_long block offset)
unfolding read_long
read_long-Total block offset h = Returns-bind (bytes_at-Total block offset 8 h) (λ _ _. returns tt)

module _ (j : Jansson) where
  append_sizes-Total :
      (a : j.Array) (sizes : List ℕ) (n : ℕ) → n ≤ length sizes → Total (append_sizes j a sizes n)
  unfolding append_sizes
  append_sizes-Total a sizes zero h = returns tt
  append_sizes-Total a [] (suc n) h = absurd (omega arith)
  append_sizes-Total a (size ∷ sizes) (suc n) h =
      append_sizes-Total (j.append_new a (j.json_integer (to_long size))) sizes n (omega arith)

  pub build_iovec-Total : (v : Iovec) → FitsIovec v → Total (build_iovec j v)
  unfolding build_iovec
  build_iovec-Total v h =
      Returns-bind (append_sizes-Total j.json_array v.iovec_sizes (rounds v.iovec_count) h)
        (λ _ _. returns tt)

  build_control_data-Total :
      (m : Msghdr) → m.controllen ≤ length m.control → Total (build_control_data j m)
  unfolding build_control_data
  build_control_data-Total m h = elim (Bool-cases (ltb m.controllen cmsghdr_size)) [
    | inl e ↦ rw (e, build_control_data) (returns tt)
    | inr e ↦
        let whole : cmsghdr_size ≤ m.controllen = ground arith in
        rw (e, build_control_data)
          (Returns-bind (read_int-Total m.control 8 (omega arith))
            (λ _ _. Returns-bind (read_int-Total m.control 12 (omega arith)) (λ _ _. returns tt)))
  ]

  pub build_msghdr-Total : (m : Msghdr) → FitsMsghdr m → Total (build_msghdr j m)
  unfolding build_msghdr
  build_msghdr-Total m (v, c) =
      Returns-bind (build_iovec-Total m.iovec v)
        (λ _ _. Returns-bind (build_control_data-Total m c) (λ _ _. returns tt))

  pub append_messages-Total :
      {n : ℕ} {vec : List Mmsghdr}
      → FitsMessages n vec
      → (a : j.Array) → Total (append_messages j a vec n)
  unfolding append_messages
  append_messages-Total no_messages a = returns tt
  append_messages-Total (and_message {m = m} h rest) a =
      Returns-bind (build_msghdr-Total m.msghdr h) (λ _ _. append_messages-Total rest _)
