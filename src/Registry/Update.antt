-- ===== src/Registry/Update.antt =====
-- Putting elements in, with the growth of the array, removing them and asking for them
-- (resizable_array.c), on the abstract view.
use tcpsnitch.Base.{
  ℕ, zero, suc, ◌*◌, ◌<◌, ◌≤◌, ◌≡◌, refl, sym, ap, ◌∙◌, true, false, Option, none, some, List, [],
  ◌∷◌, arith, ◌==◌, leb, if◌then◌else◌, length, get_elem?, replicate, length-replicate, Bool-cases,
  inl, inr, is_some, ltb→lt,
}
use tcpsnitch.Outcome.{done, Returns, returns, Returns-bind}
use tcpsnitch.Registry.{
  Registry, ElemWrapper, RwLock, unlocked, reading, writing, store_slot, ◌>>◌, unlock, ra_put_elem,
  ensure_init, ensure_size, double_size, copy_slots, allocate_array, grown_size, growth_factor,
  pure, ra_remove_elem, ra_is_present, ra_get_size,
}
use tcpsnitch.Registry.View.{
  elem_of, mutex_of, peek, mutex_at, Idle, Shape, Shape-put_slot, slot_in_bounds,
}
use tcpsnitch.Registry.Slots.{
  outside, vacant, filled, slot_at, filled_of_peek, placed, peek-placed, mutex_at-placed,
  rdlock-free, wrlock-free, unlock-write, same_lock, load_slot-slot, store_slot-slot,
}

module _ {ℓ κ} {A : Type ℓ} {B : Type κ} (F : Option (Option A) → B)
    (null : F (some none) ≡ F none) where
  fresh_slots : (n j : ℕ) → F (get_elem? (replicate n none) j) ≡ F none
  fresh_slots zero j = refl
  fresh_slots (suc n) zero = null
  fresh_slots (suc n) (suc j) = fresh_slots n j

  copied_slots :
      (xs : List (Option A)) (n j : ℕ)
      → length xs ≤ n
      → F (get_elem? (copy_slots xs (replicate n none)) j) ≡ F (get_elem? xs j)
  unfolding copy_slots
  copied_slots [] n j h = fresh_slots n j
  copied_slots (x ∷ xs) zero j h = absurd (omega arith)
  copied_slots (x ∷ xs) (suc n) zero h = refl
  copied_slots (x ∷ xs) (suc n) (suc j) h = copied_slots xs n j (omega arith)

pub length-copy_slots {ℓ} :
    {A : Type ℓ} (xs ys : List A) → length xs ≤ length ys → length (copy_slots xs ys) ≡ length ys
unfolding copy_slots
length-copy_slots [] ys h = refl
length-copy_slots (x ∷ xs) [] h = absurd (omega arith)
length-copy_slots (x ∷ xs) (y ∷ ys) h = ap suc (length-copy_slots xs ys (omega arith))

-- The size that `double_size` chooses has room for the index, and is at least twice the size before.
grown_size_lem : (n i : ℕ) → (i < grown_size n i) × (n * growth_factor ≤ grown_size n i)
unfolding grown_size
grown_size_lem n i = ground arith

module _ {ℓ} {E : Type ℓ} where
  -- `s` has the elements, the mutexes and the lock of `r`, in an array of its own.
  record Extends (r s : Registry E) : Type ℓ where
    lock : s.rwlock ≡ r.rwlock
    shape : Shape s.array s.size
    elems : (j : ℕ) → peek s j ≡ peek r j
    mutexes : (j : ℕ) → mutex_at s j ≡ mutex_at r j

  Extends-refl : (r : Registry E) → Shape r.array r.size → Extends r r
  Extends-refl r h = record { lock = refl; shape = h; elems = λ j. refl; mutexes = λ j. refl }

  abbrev table : RwLock → Option (List (Option (ElemWrapper E))) → ℕ → Registry E
  table l a n = record { rwlock = l; array = a; size = n }

  init-Extends :
      (l : RwLock) (k n : ℕ)
      → n ≡ 0
      → Extends (table l none n) (table l (some (allocate_array k)) k)
  unfolding allocate_array peek mutex_at
  init-Extends l k n e = record {
    lock = refl;
    shape = length-replicate k none;
    elems = λ j. fresh_slots elem_of refl k j;
    mutexes = λ j. fresh_slots mutex_of refl k j;
  }

  -- The first call allocates the array.
  ensure_init-Extends :
      (l : RwLock) (a : Option (List (Option (ElemWrapper E)))) (n i : ℕ)
      → Shape a n
      → Returns
          (λ (b, s). (b ≡ true) × Extends (table l a n) s × (is_some s.array ≡ true))
          (ensure_init i (table l a n))
  unfolding ensure_init
  ensure_init-Extends l none n i h = returns (refl, init-Extends l _ n h, refl)
  ensure_init-Extends l (some xs) n i h = returns (refl, Extends-refl (table l (some xs) n) h, refl)

  double_size-Extends :
      (l : RwLock) (a : Option (List (Option (ElemWrapper E)))) (n i : ℕ)
      → Shape a n
      → is_some a ≡ true
      → Returns
          (λ (b, s). (b ≡ true) × Extends (table l a n) s × (i < s.size))
          (double_size i (table l a n))
  unfolding double_size allocate_array peek mutex_at
  double_size-Extends l none n i h e = cc
  double_size-Extends l (some xs) n i h e =
      let fits : length xs ≤ grown_size n i = omega (arith, grown_size_lem n i) in
      let k = grown_size n i in
      returns (
        refl,
        record {
          lock = refl;
          shape =
              length-copy_slots xs (replicate k none) (rw (length-replicate k) fits)
              ∙ length-replicate k none;
          elems = λ j. copied_slots elem_of refl xs k j fits;
          mutexes = λ j. copied_slots mutex_of refl xs k j fits;
        },
        (grown_size_lem n i).0,
      )

  Extends-trans : {r s t : Registry E} → Extends r s → Extends s t → Extends r t
  Extends-trans x y = record {
    lock = y.lock ∙ x.lock;
    shape = y.shape;
    elems = λ j. y.elems j ∙ x.elems j;
    mutexes = λ j. y.mutexes j ∙ x.mutexes j;
  }

  ensure_size-Extends :
      (r : Registry E) (i : ℕ)
      → Shape r.array r.size
      → is_some r.array ≡ true
      → Returns (λ (b, s). (b ≡ true) × Extends r s × (i < s.size)) (ensure_size i r)
  unfolding ensure_size
  ensure_size-Extends r i h e = elim (Bool-cases (leb r.size i)) [
    | inl big ↦ rw big (double_size-Extends r.rwlock r.array r.size i h e)
    | inr small ↦ rw small (returns (refl, Extends-refl r h, ground arith))
  ]

  -- What `ra_put_elem` does under the lock once the array is large enough.
  store_last :
      (r s : Registry E) (i : ℕ) (e : E)
      → ((j : ℕ) → mutex_at r j ≡ false)
      → r.rwlock ≡ writing
      → Extends r s
      → i < s.size
      → Returns
          (λ (b, t).
            (b ≡ true) × Idle t × ((j : ℕ) → peek t j ≡ (if j == i then some e else peek r j)))
          ((store_slot i (some (record { elem = e; mutex = false })) >> (unlock >> pure true)) s)
  unfolding placed
  store_last r s i e m w x b =
      let (c, at) = slot_in_bounds s.array s.size i x.shape b in
      let new : Option (ElemWrapper E) = some (record { elem = e; mutex = false }) in
      rw (store_slot-slot s i new at, unlock-write (placed s i new s.rwlock) (x.lock ∙ w))
        (returns (
          refl,
          record {
            free = refl;
            shape = Shape-put_slot s.array s.size i new x.shape;
            mutexes = λ j. mutex_at-placed s i new unlocked at j ∙ elim (Bool-cases (j == i)) [
              | inl b' ↦ rw b'
              | inr b' ↦ rw b' (x.mutexes j ∙ m j)
            ];
          },
          λ j.
              peek-placed s i new unlocked at j
              ∙ ap (λ o. if j == i then some e else o) (x.elems j),
        ))

  -- With no lock held, putting an element in succeeds, replaces what the table held for its index and
  -- nothing else, growing the array where it must, and leaves no lock held.
  pub ra_put_elem-peek :
      (r : Registry E) (i : ℕ) (e : E)
      → Idle r
      → Returns
          (λ (b, s).
            (b ≡ true) × Idle s × ((j : ℕ) → peek s j ≡ (if j == i then some e else peek r j)))
          (ra_put_elem i e r)
  unfolding ra_put_elem mutex_at peek
  ra_put_elem-peek r i e idle =
      let w : Registry E = record r { rwlock = writing } in
      rw (wrlock-free r idle.free) (
        Returns-bind (ensure_init-Extends writing r.array r.size i idle.shape)
          λ (b, s) (yes_init, x, there). rw yes_init (
            Returns-bind (ensure_size-Extends s i x.shape there) λ (b', t) (yes_size, y, room).
              rw yes_size (store_last w t i e idle.mutexes refl (Extends-trans x y) room)))

  relocked : (r : Registry E) → Idle r → Idle (record r { rwlock = unlocked })
  unfolding mutex_at
  relocked r idle = record { free = refl; shape = idle.shape; mutexes = idle.mutexes }

  nothing_there :
      (r : Registry E) (i : ℕ)
      → peek r i ≡ none
      → (j : ℕ) → peek r j ≡ (if j == i then none else peek r j)
  nothing_there r i p j = elim (Bool-cases (j == i)) [
    | inl b ↦ let at : j ≡ i = ground arith in rw (b, at) p
    | inr b ↦ rw b
  ]

  -- With no lock held, removing returns what the table held for the index, leaves that index free, all
  -- others as they are and no lock held.
  pub ra_remove_elem-peek :
      (r : Registry E) (i : ℕ)
      → Idle r
      → Returns
          (λ (o, s).
            (o ≡ peek r i) × Idle s × ((j : ℕ) → peek s j ≡ (if j == i then none else peek r j)))
          (ra_remove_elem i r)
  unfolding ra_remove_elem peek mutex_at placed
  ra_remove_elem-peek r i idle = elim (slot_at r i idle.shape) [
    | outside b e ↦
        rw (wrlock-free r idle.free, b)
          (returns (ap elem_of (sym e), relocked r idle, nothing_there r i (ap elem_of e)))
    | vacant b e ↦
        rw (wrlock-free r idle.free, b, load_slot-slot (record r { rwlock = writing }) i e)
          (returns (ap elem_of (sym e), relocked r idle, nothing_there r i (ap elem_of e)))
    | filled w b e ↦
        rw
          (
            wrlock-free r idle.free,
            b,
            load_slot-slot (record r { rwlock = writing }) i e,
            store_slot-slot (record r { rwlock = writing }) i none e,
          )
          (returns (
            ap elem_of (sym e),
            record {
              free = refl;
              shape = Shape-put_slot r.array r.size i none idle.shape;
              mutexes = λ j.
                  mutex_at-placed r i none unlocked e j
                  ∙ elim (Bool-cases (j == i)) [ inl b' ↦ rw b' | inr b' ↦ rw b' (idle.mutexes j) ];
            },
            peek-placed r i none unlocked e,
          ))
  ]

  -- With no lock held, the answer of `ra_is_present` is whether the table holds an element for the
  -- index, and the table stays as it is.
  pub ra_is_present-peek :
      (r : Registry E) (i : ℕ) → Idle r → ra_is_present i r ≡ done (is_some (peek r i), r)
  unfolding ra_is_present peek
  ra_is_present-peek r i idle = elim (slot_at r i idle.shape) [
    | outside b e ↦
        rw (rdlock-free r idle.free, b, e)
          (ap (λ s. done (false, s)) (same_lock r unlocked idle.free))
    | vacant b e ↦
        rw (rdlock-free r idle.free, b, load_slot-slot (record r { rwlock = reading 0 }) i e, e)
          (ap (λ s. done (false, s)) (same_lock r unlocked idle.free))
    | filled w b e ↦
        rw (rdlock-free r idle.free, b, load_slot-slot (record r { rwlock = reading 0 }) i e, e)
          (ap (λ s. done (true, s)) (same_lock r unlocked idle.free))
  ]

  pub ra_get_size-Idle : (r : Registry E) → Idle r → ra_get_size r ≡ done (r.size, r)
  unfolding ra_get_size
  ra_get_size-Idle r idle =
      rw (rdlock-free r idle.free) (ap (λ s. done (r.size, s)) (same_lock r unlocked idle.free))

  -- Only indices below the size are taken.
  pub peek-lt_size : (r : Registry E) (i : ℕ) {e : E} → Idle r → peek r i ≡ some e → i < r.size
  peek-lt_size r i idle p =
      let (w, b, at, same) = filled_of_peek r i idle.shape p in ltb→lt i r.size b
