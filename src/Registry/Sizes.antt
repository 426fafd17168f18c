-- ===== src/Registry/Sizes.antt =====
-- The size of the array under the operations of resizable_array.c.
use tcpsnitch.Base.{
  lt→leb, ℕ, ◌<◌, ◌≡◌, refl, true, false, Option, none, some, List, arith, is_some,
}
use tcpsnitch.Outcome.{Returns, returns}
use tcpsnitch.Registry.{
  Registry, ElemWrapper, writing, ra_put_elem, ensure_init, ensure_size, ra_remove_elem,
}
use tcpsnitch.Registry.View.{Idle, Shape, slot_in_bounds}
use tcpsnitch.Registry.Slots.{
  outside, vacant, filled, slot_at, placed, wrlock-free, load_slot-slot, store_slot-slot,
}

module _ {ℓ} {E : Type ℓ} where
  there_of_lt :
      (a : Option (List (Option (ElemWrapper E)))) (n i : ℕ) → Shape a n → i < n → is_some a ≡ true
  there_of_lt none n i h b = absurd (omega arith)
  there_of_lt (some xs) n i h b = refl

  -- An index below the size is put in without growing the array.
  pub ra_put_elem-size :
      (r : Registry E) (i : ℕ) (e : E)
      → Idle r
      → i < r.size
      → Returns (λ (_, s). s.size ≡ r.size) (ra_put_elem i e r)
  unfolding ra_put_elem ensure_init ensure_size placed
  ra_put_elem-size r i e idle b =
      let w : Registry E = record r { rwlock = writing } in
      let (c, at) = slot_in_bounds r.array r.size i idle.shape b in
      let new : Option (ElemWrapper E) = some (record { elem = e; mutex = false }) in
      rw
        (
          wrlock-free r idle.free,
          there_of_lt r.array r.size i idle.shape b,
          lt→leb r.size i b,
          store_slot-slot w i new at,
        )
        (returns refl)

  pub ra_remove_elem-size :
      (r : Registry E) (i : ℕ) → Idle r → Returns (λ (_, s). s.size ≡ r.size) (ra_remove_elem i r)
  unfolding ra_remove_elem placed
  ra_remove_elem-size r i idle = elim (slot_at r i idle.shape) [
    | outside b e ↦ rw (wrlock-free r idle.free, b) (returns refl)
    | vacant b e ↦
        rw (wrlock-free r idle.free, b, load_slot-slot (record r { rwlock = writing }) i e)
          (returns refl)
    | filled w b e ↦
        rw
          (
            wrlock-free r idle.free,
            b,
            load_slot-slot (record r { rwlock = writing }) i e,
            store_slot-slot (record r { rwlock = writing }) i none e,
          )
          (returns refl)
  ]
