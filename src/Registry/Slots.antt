-- ===== src/Registry/Slots.antt =====
-- Slots and locks of resizable_array.c, one lemma for each access that finds what it needs.
use tcpsnitch.Base.{
  ℕ, ◌≡◌, refl, true, false, Option, none, some, arith, ◌==◌, ltb, if◌then◌else◌, Bool-cases, inl,
  inr, ltb→lt,
}
use tcpsnitch.Outcome.{done}
use tcpsnitch.Registry.{
  Registry, ElemWrapper, RwLock, unlocked, reading, writing, load_slot, store_slot, rdlock,
  rdlock_state, wrlock, wrlock_state, unlock, unlock_state,
}
use tcpsnitch.Registry.View.{
  slot, put_slot, elem_of, mutex_of, peek, mutex_at, Shape, slot-put_slot, slot_in_bounds, slot_oob,
}

module _ {ℓ} {E : Type ℓ} where
  pub load_slot-slot :
      (r : Registry E) (i : ℕ) {c : Option (ElemWrapper E)}
      → slot r.array i ≡ some c
      → load_slot i r ≡ done (c, r)
  unfolding load_slot
  load_slot-slot r i e = ground arith

  pub store_slot-slot :
      (r : Registry E) (i : ℕ) {c : Option (ElemWrapper E)} (w : Option (ElemWrapper E))
      → slot r.array i ≡ some c
      → store_slot i w r ≡ done (tt, record r { array = put_slot r.array i w })
  unfolding store_slot
  store_slot-slot r i w e = ground arith

  -- What an index finds in a table of the right shape.
  pub data SlotAt (r : Registry E) (i : ℕ) : Type ℓ where
    outside : ltb i r.size ≡ false → slot r.array i ≡ none → SlotAt r i
    vacant : ltb i r.size ≡ true → slot r.array i ≡ some none → SlotAt r i
    filled : (w : ElemWrapper E) → ltb i r.size ≡ true → slot r.array i ≡ some (some w) → SlotAt r i

  pub slot_at : (r : Registry E) (i : ℕ) → Shape r.array r.size → SlotAt r i
  slot_at r i h = elim (Bool-cases (ltb i r.size)) [
    | inl b ↦ inside (slot_in_bounds r.array r.size i h (ltb→lt i r.size b)) b
    | inr b ↦ outside b (slot_oob r.array r.size i h (ground arith))
  ]
    where
      inside :
          (c : Option (ElemWrapper E)) × (slot r.array i ≡ some c)
          → ltb i r.size ≡ true
          → SlotAt r i
      inside (none, e) b = vacant b e
      inside (some w, e) b = filled w b e

  pub filled_of_peek :
      (r : Registry E) (i : ℕ) {e : E}
      → Shape r.array r.size
      → peek r i ≡ some e
      → (w : ElemWrapper E) × (ltb i r.size ≡ true)
        × (slot r.array i ≡ some (some w))
        × (w.elem ≡ e)
  unfolding peek
  filled_of_peek r i h p = elim (slot_at r i h) [
    | outside b e ↦ absurd (ground arith)
    | vacant b e ↦ absurd (ground arith)
    | filled w b e ↦ (w, b, e, ground arith)
  ]

  -- The table with `w` in the slot of `i`, under the lock state `l`.
  unfoldable pub placed : Registry E → ℕ → Option (ElemWrapper E) → RwLock → Registry E
  placed r i w l = record r { rwlock = l; array = put_slot r.array i w }

  module _ (r : Registry E) (i : ℕ) (w : Option (ElemWrapper E)) (l : RwLock)
      {c : Option (ElemWrapper E)} (e : slot r.array i ≡ some c) where
    pub peek-placed :
        (j : ℕ) → peek (placed r i w l) j ≡ (if j == i then elem_of (some w) else peek r j)
    unfolding peek placed
    peek-placed j =
        rw (slot-put_slot r.array i j w e)
          (elim (Bool-cases (j == i)) [ inl b ↦ rw b refl | inr b ↦ rw b refl ])

    pub mutex_at-placed :
        (j : ℕ) → mutex_at (placed r i w l) j ≡ (if j == i then mutex_of (some w) else mutex_at r j)
    unfolding mutex_at placed
    mutex_at-placed j =
        rw (slot-put_slot r.array i j w e)
          (elim (Bool-cases (j == i)) [ inl b ↦ rw b refl | inr b ↦ rw b refl ])

  pub rdlock-free :
      (r : Registry E) → r.rwlock ≡ unlocked → rdlock r ≡ done (tt, record r { rwlock = reading 0 })
  unfolding rdlock
  rdlock-free r e = rw (e, rdlock_state)

  pub wrlock-free :
      (r : Registry E) → r.rwlock ≡ unlocked → wrlock r ≡ done (tt, record r { rwlock = writing })
  unfolding wrlock
  wrlock-free r e = rw (e, wrlock_state)

  pub unlock-read :
      (r : Registry E) → r.rwlock ≡ reading 0 → unlock r ≡ done (tt, record r { rwlock = unlocked })
  unfolding unlock
  unlock-read r e = rw (e, unlock_state)

  pub unlock-write :
      (r : Registry E) → r.rwlock ≡ writing → unlock r ≡ done (tt, record r { rwlock = unlocked })
  unfolding unlock
  unlock-write r e = rw (e, unlock_state)

  -- With the lock as it was, the table is the table.
  pub same_lock : (r : Registry E) (l : RwLock) → r.rwlock ≡ l → record r { rwlock = l } ≡ r
  same_lock r l e = ground arith
