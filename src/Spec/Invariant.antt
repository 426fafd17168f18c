-- ===== src/Spec/Invariant.antt =====
-- What stays true of the table of sockets (sock_events.c) through every step.
use tcpsnitch.Base.{
  ℕ, suc, ◌^◌, ◌<◌, ◌≡◌, ◌≢◌, ◌⊎◌, inl, inr, refl, sym, ap, ◌∙◌, ℤ, Option, none, some, List, ◌==◌,
  arith, Bool-cases, eqb→eq, eqb→ne,
}
use tcpsnitch.Bytes.{Text}
use tcpsnitch.Event.{SockEventType, SockEvent, Socket}
use tcpsnitch.Kernel.{Kernel}
use tcpsnitch.Tracer.{Plan}
use tcpsnitch.Spec.{with_event}
use tcpsnitch.Spec.{put-other}
use tcpsnitch.Spec.{Setting, Abs, put, with_socket}
use tcpsnitch.Spec.Start.{IsNew}
use tcpsnitch.Spec.Hook.{Entered, known, made, Entered-table, Final, quiet, informed, read_info}
use tcpsnitch.Spec.Handler.{Handled, handled, Duplicated, duplicated, IsCopy}
use tcpsnitch.Spec.Effects.{Effect, logs, dups}
use tcpsnitch.Spec.Steps.{Step, logged, not_duped, duped, opened, closed}

-- A socket of a table with `n` numbers given out, at the place `fd`.
pub record IsSound (n fd : ℕ) (s : Socket) : Type 0 where
  pub at_fd : s.fd ≡ fd
  pub numbered : s.id < n
  pub sent : s.bytes_sent < 2 ^ 64
  pub received : s.bytes_received < 2 ^ 64

-- Each socket stands at its descriptor, its number has been given out and its counters are
-- `unsigned long`; no two have the same number.
pub record IsGood (a : Abs) : Type 0 where
  pub sound : (fd : ℕ) (s : Socket) → a.table fd ≡ some s → IsSound a.count fd s
  pub distinct :
      (i j : ℕ) (s t : Socket) → a.table i ≡ some s → a.table j ≡ some t → s.id ≡ t.id → i ≡ j

-- A change that leaves the identity of a socket alone and its counters in range.
pub record Tame (s t : Socket) : Type 0 where
  pub id_kept : t.id ≡ s.id
  pub fd_kept : t.fd ≡ s.fd
  pub sent : s.bytes_sent < 2 ^ 64 → t.bytes_sent < 2 ^ 64
  pub received : s.bytes_received < 2 ^ 64 → t.bytes_received < 2 ^ 64

pub Tame-refl : (s : Socket) → Tame s s
Tame-refl s = record { id_kept = refl; fd_kept = refl; sent = λ h. h; received = λ h. h }

Tame-trans : {r s t : Socket} → Tame r s → Tame s t → Tame r t
Tame-trans p q = record {
  id_kept = q.id_kept ∙ p.id_kept;
  fd_kept = q.fd_kept ∙ p.fd_kept;
  sent = λ h. q.sent (p.sent h);
  received = λ h. q.received (p.received h);
}

with_event-Tame : (s : Socket) (ev : SockEvent) → Tame s (with_event s ev)
with_event-Tame s ev = record { id_kept = refl; fd_kept = refl; sent = λ h. h; received = λ h. h }

Final-Tame : {k : Kernel} {u : Setting} {fd : ℕ} {s t : Socket} → Final k u fd s t → Tame s t
Final-Tame {s = s} (quiet _ _) = Tame-refl s
Final-Tame {s = s} (informed _ _ (read_info {ev} ret err info c _ _)) =
    Tame-trans (record { id_kept = refl; fd_kept = refl; sent = λ h. h; received = λ h. h })
      (with_event-Tame _ ev)

pub put-view :
    (i : ℕ) (o : Option Socket) (f : ℕ → Option Socket) (j : ℕ) (s : Socket)
    → put i o f j ≡ some s
    → ((j ≡ i) × (o ≡ some s)) ⊎ ((j ≢ i) × (f j ≡ some s))
put-view i o f j s e = elim (Bool-cases (j == i)) [
  | inl b ↦ inl (eqb→eq j i b, rw b at e)
  | inr b ↦ inr (eqb→ne j i b, rw b at e)
]

-- The socket of a descriptor takes another state.
pub modify-IsGood :
    {a : Abs} (fd : ℕ) {s t : Socket}
    → IsGood a
    → a.table fd ≡ some s
    → Tame s t
    → IsGood (with_socket fd (some t) a)
modify-IsGood {a} fd {s} {t} g e tame = record {
  sound = λ j x ex. elim (put-view fd (some t) a.table j x ex) [
    | inl (at, is) ↦
        let old = g.sound fd s e in
        rw (at, sym (some_of is))
          (record {
            at_fd = tame.fd_kept ∙ old.at_fd;
            numbered = rw tame.id_kept old.numbered;
            sent = tame.sent old.sent;
            received = tame.received old.received;
          })
    | inr (_, ex') ↦ g.sound j x ex'
  ];
  distinct = λ i j x y ex ey same.
      let (x', ex', kx) = before i x ex in
      let (y', ey', ky) = before j y ey in g.distinct i j x' y' ex' ey' (sym kx ∙ same ∙ ky);
}
  where
    some_of : {x y : Socket} → some x ≡ some y → x ≡ y
    some_of h = cc

    before :
        (j : ℕ) (x : Socket)
        → put fd (some t) a.table j ≡ some x
        → (y : Socket) × (a.table j ≡ some y) × (x.id ≡ y.id)
    before j x ex = elim (put-view fd (some t) a.table j x ex) [
      | inl (at, is) ↦ (s, ap a.table at ∙ e, ap (λ z. z.id) (sym (some_of is)) ∙ tame.id_kept)
      | inr (_, ex') ↦ (x, ex', refl)
    ]

-- A new socket has the next number.
add-IsGood :
    {a : Abs} (fd : ℕ) {s : Socket} {lines : List (Text × SockEvent)}
    → IsGood a
    → s.id ≡ a.count
    → IsSound (suc a.count) fd s
    → IsGood (record { table = put fd (some s) a.table; count = suc a.count; lines = lines })
add-IsGood {a} fd {s} g e new = record {
  sound = λ j x ex. elim (put-view fd (some s) a.table j x ex) [
    | inl (at, is) ↦ rw (at, sym (some_of is)) new
    | inr (_, ex') ↦
        let old = g.sound j x ex' in
        record {
          at_fd = old.at_fd;
          numbered = later x.id old.numbered;
          sent = old.sent;
          received = old.received;
        }
  ];
  distinct = λ i j x y ex ey same. elim (put-view fd (some s) a.table i x ex) [
    | inl (ai, is) ↦ elim (put-view fd (some s) a.table j y ey) [
      | inl (aj, js) ↦ ai ∙ sym aj
      | inr (_, ey') ↦
          absurd (
            fresh y.id (g.sound j y ey').numbered
              (sym same ∙ ap (λ z. z.id) (sym (some_of is)) ∙ e))
    ]
    | inr (_, ex') ↦ elim (put-view fd (some s) a.table j y ey) [
      | inl (aj, js) ↦
          absurd
            (fresh x.id (g.sound i x ex').numbered (same ∙ ap (λ z. z.id) (sym (some_of js)) ∙ e))
      | inr (_, ey') ↦ g.distinct i j x y ex' ey' same
    ]
  ];
}
  where
    some_of : {x y : Socket} → some x ≡ some y → x ≡ y
    some_of h = cc

    later : (n : ℕ) → n < a.count → n < suc a.count
    later n h = omega arith

    fresh : (n : ℕ) → n < a.count → n ≡ a.count → ⊥
    fresh n h e = omega arith

remove-IsGood :
    {a : Abs} (fd : ℕ) {lines : List (Text × SockEvent)}
    → IsGood a
    → IsGood (record (with_socket fd none a) { lines = lines })
remove-IsGood {a} fd g = record {
  sound = λ j x ex. g.sound j x (left j x ex);
  distinct = λ i j x y ex ey. g.distinct i j x y (left i x ex) (left j y ey);
}
  where
    left : (j : ℕ) (x : Socket) → put fd none a.table j ≡ some x → a.table j ≡ some x
    left j x ex = elim (put-view fd none a.table j x ex) [
      | inl (_, is) ↦ absurd (no is)
      | inr (_, ex') ↦ ex'
    ]
      where
        no : none ≡ some x → ⊥
        no h = cc

-- Every plan of an effect is tame.
abbrev pub IsTame : Effect → Type 0
IsTame (logs type fd ret err p) = (s : Socket) → Tame s (p.change s)
IsTame (dups type fd ret err p) = (s : Socket) → Tame s (p.change s)
IsTame _ = Unit {0}

IsSound-new :
    {type : SockEventType} {n fd : ℕ} {s : Socket} → IsNew type n fd s → IsSound (suc n) fd s
IsSound-new {n = n} {s = s} new =
    let id = new.id_is in
    let sent = new.sent in
    let received = new.received in
    record { at_fd = new.fd_is; numbered = omega arith; sent = omega arith; received = omega arith }

Entered-IsGood : {a : Abs} {fd : ℕ} {s : Socket} {b : Abs} → Entered fd a s b → IsGood a → IsGood b
Entered-IsGood {fd = fd} (known _) g = g
Entered-IsGood {fd = fd} (made _ new) g = add-IsGood fd g new.id_is (IsSound-new new)

module _ {k : Kernel} {u : Setting} where
  Handled-IsGood :
      {type : SockEventType} {fd : ℕ} {ret err : ℤ} {p : Plan} {a b : Abs}
      → Handled k u type fd ret err p a b
      → ((s : Socket) → Tame s (p.change s))
      → IsGood a
      → IsGood b
  Handled-IsGood {fd = fd} {p = p} (handled {s} {ev = ev} entered _ final) tame g =
      modify-IsGood fd (Entered-IsGood entered g) (Entered-table entered)
        (Tame-trans (tame s) (Tame-trans (with_event-Tame (p.change s) ev) (Final-Tame final)))

  Duplicated-IsGood :
      {type : SockEventType} {fd r : ℕ} {err : ℤ} {p : Plan} {a b : Abs}
      → fd ≢ r
      → Duplicated k u type fd r err p a b
      → ((s : Socket) → Tame s (p.change s))
      → IsGood a
      → IsGood b
  Duplicated-IsGood {fd = fd} {r = r} {p = p} apart
        (duplicated {s} {c} {b = b} {ev = ev} entered _ copy final) tame g =
      modify-IsGood fd (add-IsGood r (Entered-IsGood entered g) copy.id_is (IsSound-copy copy))
        (put-other r (some c) b.table fd apart ∙ Entered-table entered)
        (Tame-trans (tame s) (Tame-trans (with_event-Tame (p.change s) ev) (Final-Tame final)))
    where
      IsSound-copy :
          {n r : ℕ} {s : Socket} {ev : SockEvent} {c : Socket}
          → IsCopy n r s ev c
          → IsSound (suc n) r c
      IsSound-copy {n} {c = c} copy =
          let id = copy.id_is in
          let sent = copy.sent in
          let received = copy.received in
          record {
            at_fd = copy.fd_is;
            numbered = omega arith;
            sent = omega arith;
            received = omega arith;
          }

  -- Every step keeps the table good.
  pub Step-IsGood : {e : Effect} {a b : Abs} → Step k u e a b → IsTame e → IsGood a → IsGood b
  Step-IsGood (logged h) tame g = Handled-IsGood h tame g
  Step-IsGood (not_duped h) tame g = Handled-IsGood h tame g
  Step-IsGood (duped apart h) tame g = Duplicated-IsGood apart h tame g
  Step-IsGood (opened {fd} _ new _ _) tame g = add-IsGood fd g new.id_is (IsSound-new new)
  Step-IsGood (closed {fd} h _ _) tame g = remove-IsGood fd (Handled-IsGood h Tame-refl g)
