-- ===== src/Overrides.antt =====
-- libc_overrides.c: what is put in place of the functions of the C library. Each takes the answer of
-- the original function, its result and `errno`, and gives what the program sees.
pub mod Connect
use tcpsnitch.Base.{
  ℕ, zero, suc, ◌+◌, ℤ, pos, negsuc, Bool, false, ◌||◌, Option, none, some, List, [], ◌∷◌,
  if◌then◌else◌, eqb_ℤ,
}
use tcpsnitch.Outcome.{out_of_bounds, null_deref}
use tcpsnitch.Event.{SelectEvents}
use tcpsnitch.Kernel.{Kernel}
use tcpsnitch.CLib.{is_inet_socket}
use tcpsnitch.World.{World, M, pure, fail, ◌>>=◌, ◌>>◌, kernel, get_world}
use tcpsnitch.Tracer.Handlers.{sock_ev_socket}
use tcpsnitch.Tracer.IoHandlers.{
  sock_ev_close, sock_ev_ioctl, sock_ev_poll, sock_ev_ppoll, sock_ev_select, sock_ev_pselect,
  sock_ev_fcntl, sock_ev_epoll_ctl, sock_ev_epoll_wait, sock_ev_epoll_pwait,
}
use tcpsnitch.Tracer.Dump.{reset_tcpsnitch}

-- What the program sees; `errno` is `none` where it is not restored after the hooks.
pub record Answer : Type 0 where
  pub value : ℤ
  pub errno : Option ℤ

abbrev pub answer : ℤ → ℤ → Answer
answer ret err = record { value = ret; errno = some err }

-- `if (is_inet_socket(fd)) sock_ev_...`; a negative number is no descriptor.
unfoldable pub if_inet : ℤ → (ℕ → M (Unit {0})) → M (Unit {0})
if_inet (negsuc n) hook = pure tt
if_inet (pos fd) hook = do
  k ← kernel
  w ← get_world
  if is_inet_socket k w.options.opt_c fd then hook fd else pure tt

-- The macros `override` and `override_1arg`, for the hook of a function with its other arguments.
unfoldable pub override : ℤ → ℤ → ℤ → (ℕ → M (Unit {0})) → M Answer
unfolding if_inet
override fd ret err hook = do if_inet fd hook; pure (answer ret err)

-- The new descriptor is looked at; `errno` is left as it is then.
unfoldable pub socket_override : ℤ → ℕ → ℕ → ℕ → M Answer
unfolding if_inet
socket_override fd domain type protocol = do
  if_inet fd (λ d. sock_ev_socket d domain type protocol)
  pure (record { value = fd; errno = none })

-- Whether the descriptor is an Internet socket is asked before it is closed: `before` holds the
-- answers that are met then.
unfoldable pub close_override : Kernel → ℤ → ℤ → ℤ → M Answer
close_override before (negsuc n) ret err = pure (answer ret err)
close_override before (pos fd) ret err = do
  w ← get_world
  if is_inet_socket before w.options.opt_c fd then sock_ev_close fd ret err else pure tt
  pure (answer ret err)

-- In the child, where `fork` returns 0, the library starts anew.
unfoldable pub fork_override : ℤ → ℤ → M Answer
fork_override ret err = do
  if eqb_ℤ ret (pos 0) then reset_tcpsnitch else pure tt
  pure (answer ret err)

-- An entry of `struct pollfd` after the call.
pub record PollFd : Type 0 where
  pub fd : ℤ
  pub events : ℕ
  pub revents : ℕ

unfoldable pub poll_loop : ℕ → List PollFd → ℤ → ℤ → ℤ → M (Unit {0})
unfolding if_inet
poll_loop zero fds ret err timeout = pure tt
poll_loop (suc n) [] ret err timeout = fail out_of_bounds
poll_loop (suc n) (p ∷ fds) ret err timeout = do
  if_inet p.fd (λ d. sock_ev_poll d ret err p.events p.revents timeout)
  poll_loop n fds ret err timeout

unfoldable pub poll_override : List PollFd → ℕ → ℤ → ℤ → ℤ → M Answer
unfolding poll_loop
poll_override fds nfds ret err timeout = do
  poll_loop nfds fds ret err timeout
  pure (answer ret err)

unfoldable pub ppoll_loop : ℕ → List PollFd → ℤ → ℤ → Option (ℤ × ℤ) → M (Unit {0})
unfolding if_inet
ppoll_loop zero fds ret err tmo = pure tt
ppoll_loop (suc n) [] ret err tmo = fail out_of_bounds
ppoll_loop (suc n) (p ∷ fds) ret err tmo = do
  if_inet p.fd (λ d. sock_ev_ppoll d ret err p.events p.revents tmo)
  ppoll_loop n fds ret err tmo

unfoldable pub ppoll_override : List PollFd → ℕ → ℤ → ℤ → Option (ℤ × ℤ) → M Answer
unfolding ppoll_loop
ppoll_override fds nfds ret err tmo = do ppoll_loop nfds fds ret err tmo; pure (answer ret err)

-- The sets of descriptors of a call of `select`; a null pointer is `none`.
pub record FdSets : Type 0 where
  pub readfds : Option (ℕ → Bool)
  pub writefds : Option (ℕ → Bool)
  pub exceptfds : Option (ℕ → Bool)

abbrev pub fd_isset : Option (ℕ → Bool) → ℕ → Bool
fd_isset none fd = false
fd_isset (some set) fd = set fd

unfoldable pub events_of : FdSets → ℕ → SelectEvents
events_of s fd = record {
  read = fd_isset s.readfds fd;
  write = fd_isset s.writefds fd;
  except = fd_isset s.exceptfds fd;
}

-- `req_ev[fd]` is not zero.
abbrev pub any_event : SelectEvents → Bool
any_event e = e.read || (e.write || e.except)

-- `req_ev`, filled before the call for the Internet sockets.
unfoldable pub requested : Kernel → World → FdSets → ℕ → SelectEvents
unfolding events_of
requested k w s fd =
    if is_inet_socket k w.options.opt_c fd
    then events_of s fd
    else record { read = false; write = false; except = false }

-- The loop over the descriptors from `fd` on, for `n` of them; the sets are those after the call.
unfoldable pub select_loop :
    ℕ
    → ℕ
    → (ℕ → SelectEvents)
    → FdSets
    → (ℕ → SelectEvents → SelectEvents → M (Unit {0}))
    → M (Unit {0})
unfolding if_inet events_of
select_loop zero fd req after hook = pure tt
select_loop (suc n) fd req after hook = do
  if_inet (pos fd) (λ d. if any_event (req d) then hook d (req d) (events_of after d) else pure tt)
  select_loop n (fd + 1) req after hook

-- `errno` is not restored here, while it is in `pselect`.
unfoldable pub select_override : ℕ → FdSets → FdSets → Option (ℤ × ℤ) → ℤ → ℤ → M Answer
unfolding select_loop requested
select_override nfds before after timeout ret err = do
  k ← kernel
  w ← get_world
  select_loop nfds 0 (requested k w before) after
      (λ fd req got. sock_ev_select fd ret err req got timeout)
  pure (record { value = ret; errno = none })

unfoldable pub pselect_override : ℕ → FdSets → FdSets → Option (ℤ × ℤ) → ℤ → ℤ → M Answer
unfolding select_loop requested
pselect_override nfds before after timeout ret err = do
  k ← kernel
  w ← get_world
  select_loop nfds 0 (requested k w before) after
      (λ fd req got. sock_ev_pselect fd ret err req got timeout)
  pure (answer ret err)

-- `struct epoll_event`: the descriptor that the program has stored in it, and its events.
pub record EpollEvent : Type 0 where
  pub fd : ℤ
  pub events : ℕ

-- The loop over the `ret` events that the call has returned.
unfoldable pub epoll_loop : ℕ → List EpollEvent → (ℕ → ℕ → M (Unit {0})) → M (Unit {0})
unfolding if_inet
epoll_loop zero events hook = pure tt
epoll_loop (suc n) [] hook = fail out_of_bounds
epoll_loop (suc n) (e ∷ events) hook = do
  if_inet e.fd (λ d. hook d e.events)
  epoll_loop n events hook

abbrev pub count_of : ℤ → ℕ
count_of (pos n) = n
count_of (negsuc n) = 0

unfoldable pub epoll_wait_override : List EpollEvent → ℤ → ℤ → ℤ → M Answer
unfolding epoll_loop
epoll_wait_override events timeout ret err = do
  epoll_loop (count_of ret) events (λ fd got. sock_ev_epoll_wait fd ret err timeout got)
  pure (answer ret err)

unfoldable pub epoll_pwait_override : List EpollEvent → ℤ → ℤ → ℤ → M Answer
unfolding epoll_loop
epoll_pwait_override events timeout ret err = do
  epoll_loop (count_of ret) events (λ fd got. sock_ev_epoll_pwait fd ret err timeout got)
  pure (answer ret err)

unfoldable pub ioctl_override : ℤ → ℕ → ℤ → ℤ → M Answer
unfolding override
ioctl_override fd request ret err = override fd ret err (λ d. sock_ev_ioctl d ret err request)

unfoldable pub fcntl_override : ℤ → ℕ → ℤ → ℤ → ℤ → M Answer
unfolding override
fcntl_override fd cmd arg ret err = override fd ret err (λ d. sock_ev_fcntl d ret err cmd arg)

-- `event->events` is read whatever the operation is, EPOLL_CTL_DEL too, which takes a null pointer.
unfoldable pub ctl_hook : ℤ → Option ℕ → ℤ → ℤ → ℕ → M (Unit {0})
ctl_hook op none ret err fd = fail null_deref
ctl_hook op (some events) ret err fd = sock_ev_epoll_ctl fd ret err op events

unfoldable pub epoll_ctl_override : ℤ → ℤ → Option ℕ → ℤ → ℤ → M Answer
unfolding override ctl_hook
epoll_ctl_override op fd event ret err = override fd ret err (ctl_hook op event ret err)
