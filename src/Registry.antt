-- ===== src/Registry.antt =====
-- The table of traced sockets (resizable_array.c): slots indexed by file descriptor, behind a
-- read-write lock, each element with a mutex of its own.
-- The lock state is that of the one thread that runs: a request that would wait for a lock which
-- this thread itself holds is the fault `deadlock`, and giving back a lock that is not held is the
-- fault `bad_unlock`. `my_calloc` and `my_malloc` abort the process where memory runs out, so no
-- run that goes on has an allocation that failed, and the error exits after one are dead.
-- Indices are file descriptors, which are not negative.
pub mod View
mod Slots
pub mod Locking
pub mod Update
pub mod Sizes
use tcpsnitch.Base.{
  ℕ, suc, ◌+◌, ◌*◌, Bool, true, false, Option, none, some, List, [], ◌∷◌, ltb, leb, if◌then◌else◌,
  is_some, get_elem?, set, replicate,
}
use tcpsnitch.Outcome.{
  Fault, deadlock, bad_unlock, null_deref, out_of_bounds, Outcome, done, fault, bind_outcome,
}

-- How this thread holds the read-write lock: `reading n` is `n + 1` read locks.
pub data RwLock : Type 0 where
  unlocked : RwLock
  reading : ℕ → RwLock
  writing : RwLock

-- An element with its mutex.
pub record ElemWrapper {ℓ} (E : Type ℓ) : Type ℓ where
  pub elem : E
  pub mutex : Bool

-- The statics of the file. `array` is `none` until the first element is put in.
pub record Registry {ℓ} (E : Type ℓ) : Type ℓ where
  pub rwlock : RwLock
  pub array : Option (List (Option (ElemWrapper E)))
  pub size : ℕ

abbrev pub min_init_size : ℕ
min_init_size = 16

abbrev pub growth_factor : ℕ
growth_factor = 2

abbrev pub empty_registry {ℓ} : {E : Type ℓ} → Registry E
empty_registry = record { rwlock = unlocked; array = none; size = 0 }

-- A C function over the table.
abbrev pub Ra {ℓ κ} : Type ℓ → Type κ → Type (ℓ ⊔ κ)
Ra E A = Registry E → Outcome (A × Registry E)

abbrev pub pure {ℓ κ} : {E : Type ℓ} {A : Type κ} → A → Ra E A
pure a r = done (a, r)

abbrev pub fail {ℓ κ} : {E : Type ℓ} {A : Type κ} → Fault → Ra E A
fail e r = fault e

infixl 5 ◌>>=◌ ◌>>◌
abbrev pub ◌>>=◌ {ℓ κ κ'} : {E : Type ℓ} {A : Type κ} {B : Type κ'} → Ra E A → (A → Ra E B) → Ra E B
◌>>=◌ m f r = bind_outcome (m r) (λ (a, s). f a s)

abbrev pub ◌>>◌ {ℓ κ} : {E : Type ℓ} {B : Type κ} → Ra E (Unit {0}) → Ra E B → Ra E B
m >> k = m >>= λ _. k

rdlock_state : RwLock → Outcome RwLock
rdlock_state unlocked = done (reading 0)
rdlock_state (reading n) = done (reading (suc n))
rdlock_state writing = fault deadlock

wrlock_state : RwLock → Outcome RwLock
wrlock_state unlocked = done writing
wrlock_state (reading n) = fault deadlock
wrlock_state writing = fault deadlock

unlock_state : RwLock → Outcome RwLock
unlock_state unlocked = fault bad_unlock
unlock_state (reading ℕ.zero) = done unlocked
unlock_state (reading (suc n)) = done (reading n)
unlock_state writing = done unlocked

-- `for (i = 0; i < size; i++) new_a[i] = array[i]`
pub copy_slots {ℓ} : {A : Type ℓ} → List A → List A → List A
copy_slots [] new_a = new_a
copy_slots (x ∷ xs) [] = []
copy_slots (x ∷ xs) (y ∷ ys) = x ∷ copy_slots xs ys

pub grown_size : ℕ → ℕ → ℕ
grown_size size index =
    if ltb (index + 1) (size * growth_factor) then size * growth_factor else index + 1

module _ {ℓ} {E : Type ℓ} where
  with_lock : (RwLock → Outcome RwLock) → Ra E (Unit {0})
  with_lock f r = bind_outcome (f r.rwlock) (λ l. done (tt, record r { rwlock = l }))

  pub rdlock : Ra E (Unit {0})
  unfolding with_lock rdlock_state
  rdlock = with_lock rdlock_state

  pub wrlock : Ra E (Unit {0})
  unfolding with_lock wrlock_state
  wrlock = with_lock wrlock_state

  pub unlock : Ra E (Unit {0})
  unfolding with_lock unlock_state
  unlock = with_lock unlock_state

  -- Reading and writing `array[index]`.
  pub load_slot : ℕ → Ra E (Option (ElemWrapper E))
  load_slot index r = elim r.array [
    | none ↦ fault null_deref
    | some xs ↦ elim (get_elem? xs index) [ none ↦ fault out_of_bounds | some w ↦ done (w, r) ]
  ]

  pub store_slot : ℕ → Option (ElemWrapper E) → Ra E (Unit {0})
  store_slot index w r = elim r.array [
    | none ↦ fault null_deref
    | some xs ↦ elim (get_elem? xs index) [
      | none ↦ fault out_of_bounds
      | some _ ↦ done (tt, record r { array = some (set xs index w) })
    ]
  ]

  -- A fresh array is all null.
  allocate_array : ℕ → List (Option (ElemWrapper E))
  allocate_array n = replicate n none

  pub init : ℕ → Ra E Bool
  unfolding allocate_array
  init init_size r =
      let n = if ltb init_size min_init_size then min_init_size else init_size in
      done (true, record r { array = some (allocate_array n); size = n })

  pub double_size : ℕ → Ra E Bool
  unfolding allocate_array copy_slots grown_size
  double_size index r = elim r.array [
    | none ↦ fault null_deref
    | some xs ↦
        let n = grown_size r.size index in
        done (true, record r { array = some (copy_slots xs (allocate_array n)); size = n })
  ]

  is_index_in_bounds : ℕ → Ra E Bool
  is_index_in_bounds index r = done (ltb index r.size, r)

  -- `if (!array && !init(index + 1)) goto error;`
  ensure_init : ℕ → Ra E Bool
  unfolding init
  ensure_init index r = if is_some r.array then done (true, r) else init (index + 1) r

  -- `if (index > size - 1 && !double_size(index)) goto error;` (`size` is a signed int there)
  ensure_size : ℕ → Ra E Bool
  unfolding double_size
  ensure_size index r = if leb r.size index then double_size index r else done (true, r)

  pub ra_put_elem : ℕ → E → Ra E Bool
  unfolding wrlock ensure_init ensure_size store_slot unlock
  ra_put_elem index e = do
    wrlock
    inited ← ensure_init index
    sized ← if inited then ensure_size index else pure false
    if sized
        then (do store_slot index (some (record { elem = e; mutex = false })); unlock; pure true)
        else (do unlock; pure false)

  -- The mutex is of the error-checking kind: locking it twice fails and leaves it locked, and
  -- the result is not looked at.
  lock_found : ℕ → Option (ElemWrapper E) → Ra E (Option E)
  unfolding store_slot unlock
  lock_found index none = do unlock; pure none
  lock_found index (some w) = do
    store_slot index (some (record w { mutex = true }))
    pure (some w.elem)

  -- `NULL` is `none`. The read lock stays held where an element is returned.
  pub ra_get_and_lock_elem : ℕ → Ra E (Option E)
  unfolding rdlock is_index_in_bounds load_slot lock_found unlock
  ra_get_and_lock_elem index = do
    rdlock
    ok ← is_index_in_bounds index
    if ok then (do w ← load_slot index; lock_found index w) else (do unlock; pure none)

  release_found : ℕ → Option (ElemWrapper E) → Ra E (Unit {0})
  unfolding store_slot unlock
  release_found index none = unlock
  release_found index (some w) = do store_slot index (some (record w { mutex = false })); unlock

  pub ra_unlock_elem : ℕ → Ra E (Unit {0})
  unfolding is_index_in_bounds load_slot release_found unlock
  ra_unlock_elem index = do
    ok ← is_index_in_bounds index
    if ok then (do w ← load_slot index; release_found index w) else unlock

  remove_found : ℕ → Option (ElemWrapper E) → Ra E (Option E)
  unfolding store_slot unlock
  remove_found index none = do unlock; pure none
  remove_found index (some w) = do store_slot index none; unlock; pure (some w.elem)

  pub ra_remove_elem : ℕ → Ra E (Option E)
  unfolding wrlock is_index_in_bounds load_slot remove_found unlock
  ra_remove_elem index = do
    wrlock
    ok ← is_index_in_bounds index
    if ok then (do w ← load_slot index; remove_found index w) else (do unlock; pure none)

  pub ra_is_present : ℕ → Ra E Bool
  unfolding rdlock is_index_in_bounds load_slot unlock
  ra_is_present index = do
    rdlock
    ok ← is_index_in_bounds index
    if ok then (do w ← load_slot index; unlock; pure (is_some w)) else (do unlock; pure false)

  pub ra_get_size : Ra E ℕ
  unfolding rdlock unlock
  ra_get_size = do rdlock; n ← (λ r. done (r.size, r)); unlock; pure n

  -- A write through the pointer that `ra_get_and_lock_elem` returned.
  write_found : ℕ → (E → E) → Option (ElemWrapper E) → Ra E (Unit {0})
  unfolding store_slot
  write_found index f none = fail null_deref
  write_found index f (some w) = store_slot index (some (record w { elem = f w.elem }))

  pub write_elem : ℕ → (E → E) → Ra E (Unit {0})
  unfolding load_slot write_found
  write_elem index f = do w ← load_slot index; write_found index f w

  read_found : Option (ElemWrapper E) → Ra E E
  read_found none = fail null_deref
  read_found (some w) = pure w.elem

  -- A read through that pointer.
  pub read_elem : ℕ → Ra E E
  unfolding load_slot read_found
  read_elem index = do w ← load_slot index; read_found w
