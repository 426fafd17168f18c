-- ===== src/Spec/Table.antt =====
-- The functions of resizable_array.c on the state of the tracer.
use tcpsnitch.Base.{ℕ, ◌≡◌, refl, ap, ◌∙◌, true, none, some, ◌==◌, if◌then◌else◌, is_some}
use tcpsnitch.Outcome.{done, fault, bad_unlock, Returns, returns, Returns-bind, Returns-mono}
use tcpsnitch.Event.{Socket}
use tcpsnitch.Registry.{
  ra_put_elem, ra_get_and_lock_elem, ra_unlock_elem, ra_remove_elem, ra_is_present, ra_get_size,
  read_elem,
}
use tcpsnitch.Registry.Locking.{
  ra_get_and_lock_elem-some, ra_get_and_lock_elem-none, read_elem-Held, write_elem-Held,
  ra_unlock_elem-Held, ra_unlock_elem-none,
}
use tcpsnitch.Registry.Update.{
  ra_put_elem-peek, ra_remove_elem-peek, ra_is_present-peek, ra_get_size-Idle,
}
use tcpsnitch.Kernel.{Kernel}
use tcpsnitch.World.{World, on_registry}
use tcpsnitch.Tracer.{modify_socket}
use tcpsnitch.Spec.{Abs, with_socket, Shows, ShowsHeld}

-- The size of the table and the directory of the traces are as before.
pub record Fixed (w v : World) : Type 0 where
  pub size : v.registry.size ≡ w.registry.size
  pub dir : v.logs_dir_path ≡ w.logs_dir_path

pub Fixed-refl : (w : World) → Fixed w w
Fixed-refl w = record { size = refl; dir = refl }

pub Fixed-trans : {u v w : World} → Fixed u v → Fixed v w → Fixed u w
Fixed-trans p q = record { size = q.size ∙ p.size; dir = q.dir ∙ p.dir }

module _ {a : Abs} {w : World} (k : Kernel) (s : Shows a w) where
  pub is_present-Shows :
      (fd : ℕ) → on_registry (ra_is_present fd) k w ≡ done (is_some (a.table fd), w)
  is_present-Shows fd = rw (ra_is_present-peek w.registry fd s.idle, s.table fd)

  pub get_size-Shows : on_registry ra_get_size k w ≡ done (w.registry.size, w)
  get_size-Shows = rw (ra_get_size-Idle w.registry s.idle)

  pub put-Shows :
      (fd : ℕ) (x : Socket)
      → Returns
          (λ (b, v). (b ≡ true) × Shows (with_socket fd (some x) a) v)
          (on_registry (ra_put_elem fd x) k w)
  put-Shows fd x =
      Returns-bind (ra_put_elem-peek w.registry fd x s.idle) λ (b, r) (yes_put, idle, view).
        returns (
          yes_put,
          record {
            idle = idle;
            table = λ j. view j ∙ ap (λ o. if j == fd then some x else o) (s.table j);
            count = s.count;
            lines = s.lines;
            alive = s.alive;
          },
        )

  pub remove-Shows :
      (fd : ℕ)
      → Returns
          (λ (o, v). (o ≡ a.table fd) × Shows (with_socket fd none a) v)
          (on_registry (ra_remove_elem fd) k w)
  remove-Shows fd =
      Returns-bind (ra_remove_elem-peek w.registry fd s.idle) λ (o, r) (was, idle, view). returns (
        was ∙ s.table fd,
        record {
          idle = idle;
          table = λ j. view j ∙ ap (λ o. if j == fd then none else o) (s.table j);
          count = s.count;
          lines = s.lines;
          alive = s.alive;
        },
      )

  pub get-Shows_sized :
      (fd : ℕ) {x : Socket}
      → a.table fd ≡ some x
      → Returns
          (λ (o, v). ((o ≡ some x) × ShowsHeld fd a v) × Fixed w v)
          (on_registry (ra_get_and_lock_elem fd) k w)
  get-Shows_sized fd {x} e =
      Returns-bind (ra_get_and_lock_elem-some w.registry fd x s.idle (s.table fd ∙ e))
        λ (o, r) (got, held, view, size). returns (
          (
            got,
            record {
              held = held;
              table = λ j. view j ∙ s.table j;
              count = s.count;
              lines = s.lines;
              alive = s.alive;
            },
          ),
          record { size = size; dir = refl },
        )

  pub get-Shows :
      (fd : ℕ) {x : Socket}
      → a.table fd ≡ some x
      → Returns
          (λ (o, v). (o ≡ some x) × ShowsHeld fd a v)
          (on_registry (ra_get_and_lock_elem fd) k w)
  get-Shows fd e = Returns-mono (get-Shows_sized fd e) (λ _ (h, _). h)

  pub get-Shows_none :
      (fd : ℕ) → a.table fd ≡ none → on_registry (ra_get_and_lock_elem fd) k w ≡ done (none, w)
  get-Shows_none fd e = rw (ra_get_and_lock_elem-none w.registry fd s.idle (s.table fd ∙ e))

  pub unlock-Shows_none :
      (fd : ℕ) → a.table fd ≡ none → on_registry (ra_unlock_elem fd) k w ≡ fault bad_unlock
  unlock-Shows_none fd e = rw (ra_unlock_elem-none w.registry fd s.idle (s.table fd ∙ e))

module _ {fd : ℕ} {a : Abs} {w : World} (k : Kernel) (s : ShowsHeld fd a w) where
  pub read-ShowsHeld :
      {x : Socket} → a.table fd ≡ some x → on_registry (read_elem fd) k w ≡ done (x, w)
  read-ShowsHeld {x} e = rw (read_elem-Held w.registry fd x s.held (s.table fd ∙ e))

  pub modify-ShowsHeld_sized :
      (f : Socket → Socket) {x : Socket}
      → a.table fd ≡ some x
      → Returns
          (λ (_, v). ShowsHeld fd (with_socket fd (some (f x)) a) v × Fixed w v)
          (modify_socket fd f k w)
  unfolding modify_socket
  modify-ShowsHeld_sized f {x} e =
      Returns-bind (write_elem-Held w.registry fd f x s.held (s.table fd ∙ e))
        λ (_, r) (held, view, size). returns (
          record {
            held = held;
            table = λ j. view j ∙ ap (λ o. if j == fd then some (f x) else o) (s.table j);
            count = s.count;
            lines = s.lines;
            alive = s.alive;
          },
          record { size = size; dir = refl },
        )

  pub modify-ShowsHeld :
      (f : Socket → Socket) {x : Socket}
      → a.table fd ≡ some x
      → Returns (λ (_, v). ShowsHeld fd (with_socket fd (some (f x)) a) v) (modify_socket fd f k w)
  modify-ShowsHeld f e = Returns-mono (modify-ShowsHeld_sized f e) (λ _ (h, _). h)

  pub unlock-ShowsHeld_sized :
      Returns (λ (_, v). Shows a v × Fixed w v) (on_registry (ra_unlock_elem fd) k w)
  unlock-ShowsHeld_sized =
      Returns-bind (ra_unlock_elem-Held w.registry fd s.held) λ (_, r) (idle, view, size). returns (
        record {
          idle = idle;
          table = λ j. view j ∙ s.table j;
          count = s.count;
          lines = s.lines;
          alive = s.alive;
        },
        record { size = size; dir = refl },
      )

  pub unlock-ShowsHeld : Returns (λ (_, v). Shows a v) (on_registry (ra_unlock_elem fd) k w)
  unlock-ShowsHeld = Returns-mono unlock-ShowsHeld_sized (λ _ (h, _). h)
