-- ===== src/Examples/Table.antt =====
-- The theorems about resizable_array.c at a table with one element.
use tcpsnitch.Base.{
  arith, zero, ℕ, suc, ◌≡◌, refl, true, false, none, some, [], ◌∷◌, ◌==◌, if◌then◌else◌, is_some,
}
use tcpsnitch.Outcome.{done, Returns}
use tcpsnitch.Registry.{
  Registry, unlocked, reading, ra_put_elem, ra_remove_elem, ra_get_and_lock_elem, ra_unlock_elem,
  ra_is_present, write_elem,
}
use tcpsnitch.Registry.View.{peek, mutex_at, Idle, Held}
use tcpsnitch.Registry.Locking.{
  ra_get_and_lock_elem-none, ra_get_and_lock_elem-some, write_elem-Held, ra_unlock_elem-Held,
}
use tcpsnitch.Registry.Update.{ra_put_elem-peek, ra_remove_elem-peek, ra_is_present-peek}

-- The number 7 stands at the index 1.
abbrev table : Registry ℕ
table = record {
  rwlock = unlocked;
  array = some (none ∷ some (record { elem = 7; mutex = false }) ∷ []);
  size = 2;
}

abbrev held_table : Registry ℕ
held_table = record {
  rwlock = reading 0;
  array = some (none ∷ some (record { elem = 7; mutex = true }) ∷ []);
  size = 2;
}

table-Idle : Idle table
unfolding mutex_at
table-Idle = record { free = refl; shape = refl; mutexes = free_at }
  where
    free_at : (j : ℕ) → mutex_at table j ≡ false
    free_at zero = refl
    free_at (suc zero) = refl
    free_at (suc (suc n)) = refl

table-peek : peek table 1 ≡ some 7
unfolding peek
table-peek = refl

table-peek-none : peek table 0 ≡ none
unfolding peek
table-peek-none = refl

held_table-peek : peek held_table 1 ≡ some 7
unfolding peek
held_table-peek = refl

off : (n : ℕ) → false ≡ (suc (suc n) == 1)
off n = ground arith

held_table-Held : Held 1 held_table
unfolding mutex_at
held_table-Held = record {
  held = refl;
  shape = refl;
  mutexes = locked_at;
  present = (7, held_table-peek);
}
  where
    locked_at : (j : ℕ) → mutex_at held_table j ≡ (j == 1)
    locked_at zero = refl
    locked_at (suc zero) = refl
    locked_at (suc (suc n)) = off n

ra_put_elem-peek_example :
    Returns
      (λ (b, s).
        (b ≡ true) × Idle s × ((j : ℕ) → peek s j ≡ (if j == 9 then some 8 else peek table j)))
      (ra_put_elem 9 8 table)
ra_put_elem-peek_example = ra_put_elem-peek table 9 8 table-Idle

ra_remove_elem-peek_example :
    Returns
      (λ (o, s).
        (o ≡ peek table 1)
        × Idle s
        × ((j : ℕ) → peek s j ≡ (if j == 1 then none else peek table j)))
      (ra_remove_elem 1 table)
ra_remove_elem-peek_example = ra_remove_elem-peek table 1 table-Idle

ra_is_present-peek_example : ra_is_present 1 table ≡ done (is_some (peek table 1), table)
ra_is_present-peek_example = ra_is_present-peek table 1 table-Idle

ra_get_and_lock_elem-some_example :
    Returns
      (λ (o, s).
        (o ≡ some 7) × Held 1 s × ((j : ℕ) → peek s j ≡ peek table j) × (s.size ≡ table.size))
      (ra_get_and_lock_elem 1 table)
ra_get_and_lock_elem-some_example = ra_get_and_lock_elem-some table 1 7 table-Idle table-peek

ra_get_and_lock_elem-none_example : ra_get_and_lock_elem 0 table ≡ done (none, table)
ra_get_and_lock_elem-none_example = ra_get_and_lock_elem-none table 0 table-Idle table-peek-none

write_elem-Held_example :
    Returns
      (λ (_, s).
        Held 1 s
        × ((j : ℕ) → peek s j ≡ (if j == 1 then some (suc 7) else peek held_table j))
        × (s.size ≡ held_table.size))
      (write_elem 1 suc held_table)
write_elem-Held_example = write_elem-Held held_table 1 suc 7 held_table-Held held_table-peek

ra_unlock_elem-Held_example :
    Returns
      (λ (_, s). Idle s × ((j : ℕ) → peek s j ≡ peek held_table j) × (s.size ≡ held_table.size))
      (ra_unlock_elem 1 held_table)
ra_unlock_elem-Held_example = ra_unlock_elem-Held held_table 1 held_table-Held
