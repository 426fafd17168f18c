-- ===== src/Registry/View.antt =====
-- The abstract view of the table of resizable_array.c: a partial map from descriptors to elements,
-- and the lock states between calls and while an element is held.
use tcpsnitch.Base.{
  ℕ, zero, suc, ◌<◌, ◌≤◌, ◌≡◌, refl, Bool, false, Option, none, some, List, [], ◌∷◌, arith, ◌==◌,
  if◌then◌else◌, length, get_elem?, set, length-set, get_elem?-set_self, get_elem?-set_ne,
  get_elem?-in_range, get_elem?-out_of_range, Bool-cases, inl, inr,
}
use tcpsnitch.Registry.{Registry, empty_registry, ElemWrapper, unlocked, reading}

-- The cell of the array at an index: `none` out of bounds, `some none` for a null pointer.
abbrev pub slot {ℓ} : {A : Type ℓ} → Option (List A) → ℕ → Option A
slot none i = none
slot (some xs) i = get_elem? xs i

abbrev pub put_slot {ℓ} : {A : Type ℓ} → Option (List A) → ℕ → A → Option (List A)
put_slot none i w = none
put_slot (some xs) i w = some (set xs i w)

-- The array has `size` cells, and there is none before the first element.
abbrev pub Shape {ℓ} : {A : Type ℓ} → Option (List A) → ℕ → Type 0
Shape none n = n ≡ 0
Shape (some xs) n = length xs ≡ n

module _ {ℓ} {E : Type ℓ} where
  abbrev pub elem_of : Option (Option (ElemWrapper E)) → Option E
  elem_of none = none
  elem_of (some none) = none
  elem_of (some (some w)) = some w.elem

  abbrev pub mutex_of : Option (Option (ElemWrapper E)) → Bool
  mutex_of none = false
  mutex_of (some none) = false
  mutex_of (some (some w)) = w.mutex

  -- The element that the table holds for a descriptor.
  unfoldable pub peek : Registry E → ℕ → Option E
  peek r i = elem_of (slot r.array i)

  unfoldable pub mutex_at : Registry E → ℕ → Bool
  mutex_at r i = mutex_of (slot r.array i)

  -- No lock is held.
  pub record Idle (r : Registry E) : Type 0 where
    pub free : r.rwlock ≡ unlocked
    pub shape : Shape r.array r.size
    pub mutexes : (j : ℕ) → mutex_at r j ≡ false

  -- The element of `i` is locked, and the read lock is held once.
  pub record Held (i : ℕ) (r : Registry E) : Type ℓ where
    pub held : r.rwlock ≡ reading 0
    pub shape : Shape r.array r.size
    pub mutexes : (j : ℕ) → mutex_at r j ≡ (j == i)
    pub present : (e : E) × (peek r i ≡ some e)

-- The registry of the start is idle and holds nothing.
pub empty-Idle {ℓ} : {E : Type ℓ} → Idle {E = E} empty_registry
unfolding mutex_at
empty-Idle = record { free = refl; shape = refl; mutexes = λ j. refl }

pub empty-peek {ℓ} : {E : Type ℓ} (j : ℕ) → peek {E = E} empty_registry j ≡ none
unfolding peek
empty-peek j = refl

module _ {ℓ} {A : Type ℓ} where
  lt_of_get : (xs : List A) (i : ℕ) {c : A} → get_elem? xs i ≡ some c → i < length xs
  lt_of_get [] i e = absurd (ground arith)
  lt_of_get (x ∷ xs) zero e = omega arith
  lt_of_get (x ∷ xs) (suc i) e = omega (arith, lt_of_get xs i e)

  get_elem?-set :
      (xs : List A) (i j : ℕ) (w : A)
      → i < length xs
      → get_elem? (set xs i w) j ≡ (if j == i then some w else get_elem? xs j)
  get_elem?-set xs i j w h = elim (Bool-cases (j == i)) [
    | inl same ↦ rw same (let e : j ≡ i = ground arith in rw e (get_elem?-set_self xs i w h))
    | inr other ↦ rw other (get_elem?-set_ne xs i j w (ground arith))
  ]

  pub slot-put_slot :
      (a : Option (List A)) (i j : ℕ) {c : A} (w : A)
      → slot a i ≡ some c
      → slot (put_slot a i w) j ≡ (if j == i then some w else slot a j)
  slot-put_slot none i j w e = absurd (ground arith)
  slot-put_slot (some xs) i j w e = get_elem?-set xs i j w (lt_of_get xs i e)

  pub Shape-put_slot :
      (a : Option (List A)) (n i : ℕ) (w : A) → Shape a n → Shape (put_slot a i w) n
  Shape-put_slot none n i w h = h
  Shape-put_slot (some xs) n i w h = omega (arith, length-set {ℓ} xs i w)

  pub slot_bound : (a : Option (List A)) (n i : ℕ) {c : A} → Shape a n → slot a i ≡ some c → i < n
  slot_bound none n i h e = absurd (ground arith)
  slot_bound (some xs) n i h e = omega (arith, lt_of_get xs i e)

  pub slot_in_bounds :
      (a : Option (List A)) (n i : ℕ) → Shape a n → i < n → (c : A) × (slot a i ≡ some c)
  slot_in_bounds none n i h b = absurd (omega arith)
  slot_in_bounds (some xs) n i h b = get_elem?-in_range xs i (omega arith)

  pub slot_oob : (a : Option (List A)) (n i : ℕ) → Shape a n → n ≤ i → slot a i ≡ none
  slot_oob none n i h b = refl
  slot_oob (some xs) n i h b = get_elem?-out_of_range xs i (omega arith)
