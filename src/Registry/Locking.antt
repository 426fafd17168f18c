-- ===== src/Registry/Locking.antt =====
-- Looking up, locking, using and releasing an element (resizable_array.c), on the abstract view.
use tcpsnitch.Base.{
  ℕ, ◌≡◌, refl, sym, ap, ◌∙◌, true, false, Option, none, some, arith, ◌==◌, ltb, if◌then◌else◌,
  Bool-cases, inl, inr,
}
use tcpsnitch.Outcome.{done, fault, bad_unlock, Returns, returns}
use tcpsnitch.Registry.{
  Registry, ElemWrapper, RwLock, unlocked, reading, ra_get_and_lock_elem, unlock, ra_unlock_elem,
  write_elem, write_found, read_elem,
}
use tcpsnitch.Registry.View.{slot, mutex_of, peek, mutex_at, Idle, Held, Shape, Shape-put_slot}
use tcpsnitch.Registry.Slots.{
  outside, vacant, filled, slot_at, filled_of_peek, placed, peek-placed, mutex_at-placed,
  rdlock-free, unlock-read, same_lock, load_slot-slot, store_slot-slot,
}

module _ {ℓ} {E : Type ℓ} where
  get_found :
      (r : Registry E) (i : ℕ) (w : ElemWrapper E)
      → Idle r
      → ltb i r.size ≡ true
      → slot r.array i ≡ some (some w)
      → ra_get_and_lock_elem i r
        ≡ done (some w.elem, placed r i (some (record w { mutex = true })) (reading 0))
  unfolding ra_get_and_lock_elem placed
  get_found r i w idle b e = rw (
    rdlock-free r idle.free,
    b,
    load_slot-slot (record r { rwlock = reading 0 }) i e,
    store_slot-slot (record r { rwlock = reading 0 }) i (some (record w { mutex = true })) e,
  )

  placed-Held :
      (r : Registry E) (i : ℕ) (w : ElemWrapper E) {c : Option (ElemWrapper E)} (l : RwLock)
      → l ≡ reading 0
      → Shape r.array r.size
      → ((j : ℕ) → (j == i) ≡ false → mutex_at r j ≡ false)
      → w.mutex ≡ true
      → slot r.array i ≡ some c
      → Held i (placed r i (some w) l)
  unfolding placed
  placed-Held r i w l lock shape others locked e = record {
    held = lock;
    shape = Shape-put_slot r.array r.size i (some w) shape;
    mutexes = λ j.
        mutex_at-placed r i (some w) l e j
        ∙ elim (Bool-cases (j == i)) [ inl b ↦ rw b locked | inr b ↦ rw b (others j b) ];
    present = (w.elem, peek-placed r i (some w) l e i ∙ (ground arith));
  }

  -- With no lock held, an index that the table holds nothing for is answered with a null pointer, and
  -- the table and its locks are as before.
  pub ra_get_and_lock_elem-none :
      (r : Registry E) (i : ℕ)
      → Idle r
      → peek r i ≡ none
      → ra_get_and_lock_elem i r ≡ done (none, r)
  unfolding ra_get_and_lock_elem peek unlock
  ra_get_and_lock_elem-none r i idle p = elim (slot_at r i idle.shape) [
    | outside b e ↦
        rw (rdlock-free r idle.free, b) (ap (λ s. done (none, s)) (same_lock r unlocked idle.free))
    | vacant b e ↦
        rw (rdlock-free r idle.free, b, load_slot-slot (record r { rwlock = reading 0 }) i e)
          (ap (λ s. done (none, s)) (same_lock r unlocked idle.free))
    | filled w b e ↦ absurd (ground arith)
  ]

  -- Storing back a wrapper with the element that was there changes no element.
  peek-placed_same :
      (r : Registry E) (i : ℕ) (w : ElemWrapper E) {v : ElemWrapper E} (l : RwLock)
      → slot r.array i ≡ some (some v)
      → w.elem ≡ v.elem
      → (j : ℕ) → peek (placed r i (some w) l) j ≡ peek r j
  unfolding peek
  peek-placed_same r i w l e same j = peek-placed r i (some w) l e j ∙ elim (Bool-cases (j == i)) [
    | inl b ↦ let at : j ≡ i = ground arith in rw (b, at, e) (ap some same)
    | inr b ↦ rw b
  ]

  -- With no lock held, an index that the table holds an element for is answered with that element, now
  -- locked, under the read lock; no element and no size has changed.
  pub ra_get_and_lock_elem-some :
      (r : Registry E) (i : ℕ) (e : E)
      → Idle r
      → peek r i ≡ some e
      → Returns
          (λ (o, s). (o ≡ some e) × Held i s × ((j : ℕ) → peek s j ≡ peek r j) × (s.size ≡ r.size))
          (ra_get_and_lock_elem i r)
  unfolding placed
  ra_get_and_lock_elem-some r i e idle p =
      let (w, b, at, same) = filled_of_peek r i idle.shape p in
      rw (get_found r i w idle b at) (
        returns (
          ap some same,
          placed-Held r i (record w { mutex = true }) (reading 0) refl idle.shape
              (λ j _. idle.mutexes j) refl at,
          peek-placed_same r i (record w { mutex = true }) (reading 0) at refl,
          refl,
        ))

  locked_of_Held :
      (r : Registry E) (i : ℕ) (w : ElemWrapper E)
      → Held i r
      → slot r.array i ≡ some (some w)
      → w.mutex ≡ true
  unfolding mutex_at
  locked_of_Held r i w h at = sym (ap mutex_of at) ∙ h.mutexes i ∙ (ground arith)

  pub read_elem-Held :
      (r : Registry E) (i : ℕ) (e : E) → Held i r → peek r i ≡ some e → read_elem i r ≡ done (e, r)
  unfolding read_elem
  read_elem-Held r i e h p =
      let (w, b, at, same) = filled_of_peek r i h.shape p in
      rw (load_slot-slot r i at) (ap (λ x. done (x, r)) same)

  -- A write through the pointer to a locked element changes that element and no other.
  pub write_elem-Held :
      (r : Registry E) (i : ℕ) (f : E → E) (e : E)
      → Held i r
      → peek r i ≡ some e
      → Returns
          (λ (_, s).
            Held i s
            × ((j : ℕ) → peek s j ≡ (if j == i then some (f e) else peek r j))
            × (s.size ≡ r.size))
          (write_elem i f r)
  unfolding write_elem placed
  write_elem-Held r i f e h p =
      let (w, b, at, same) = filled_of_peek r i h.shape p in
      let w' : ElemWrapper E = record w { elem = f w.elem } in
      rw (load_slot-slot r i at, write_found, store_slot-slot r i (some w') at)
        (returns (
          placed-Held r i w' r.rwlock h.held h.shape (λ j b. h.mutexes j ∙ b)
              (locked_of_Held r i w h at) at,
          λ j.
              peek-placed r i (some w') r.rwlock at j
              ∙ ap (λ x. if j == i then some (f x) else peek r j) same,
          refl,
        ))

  -- Where the element of an index is locked under the read lock, releasing it leaves no lock held, and
  -- no element and no size changed.
  pub ra_unlock_elem-Held :
      (r : Registry E) (i : ℕ)
      → Held i r
      → Returns
          (λ (_, s). Idle s × ((j : ℕ) → peek s j ≡ peek r j) × (s.size ≡ r.size))
          (ra_unlock_elem i r)
  unfolding ra_unlock_elem placed
  ra_unlock_elem-Held r i h =
      let (w, b, at, same) = filled_of_peek r i h.shape h.present.1 in
      let w' : ElemWrapper E = record w { mutex = false } in
      rw
        (
          b,
          load_slot-slot r i at,
          store_slot-slot r i (some w') at,
          unlock-read (placed r i (some w') r.rwlock) h.held,
        )
        (returns (
          record {
            free = refl;
            shape = Shape-put_slot r.array r.size i (some w') h.shape;
            mutexes = λ j.
                mutex_at-placed r i (some w') unlocked at j
                ∙ elim (Bool-cases (j == i)) [ inl b' ↦ rw b' | inr b' ↦ rw b' (h.mutexes j ∙ b') ];
          },
          peek-placed_same r i w' unlocked at refl,
          refl,
        ))

  -- Releasing an element that is not there, with no lock held, releases a lock that is not held.
  pub ra_unlock_elem-none :
      (r : Registry E) (i : ℕ) → Idle r → peek r i ≡ none → ra_unlock_elem i r ≡ fault bad_unlock
  unfolding ra_unlock_elem peek unlock
  ra_unlock_elem-none r i idle p = elim (slot_at r i idle.shape) [
    | outside b e ↦ rw (b, idle.free) refl
    | vacant b e ↦ rw (b, load_slot-slot r i e, idle.free) refl
    | filled w b e ↦ absurd (ground arith)
  ]
