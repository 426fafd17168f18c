-- ===== src/Json/Flags.antt =====
-- json_builder.c: sets of flags and the times of events as JSON objects.
use tcpsnitch.Base.{ℕ, ◌^◌, [], ◌∷◌}
use tcpsnitch.Bytes.{has_flag}
use tcpsnitch.Event.{Timeout, PollEvents, SelectEvents}
use tcpsnitch.Json.{Jansson, add_all, number, truth, object_of}

-- The message flags of Linux.
abbrev msg_oob : ℕ
msg_oob = 0x1

abbrev msg_peek : ℕ
msg_peek = 0x2

abbrev msg_dontroute : ℕ
msg_dontroute = 0x4

abbrev msg_trunc : ℕ
msg_trunc = 0x20

abbrev msg_dontwait : ℕ
msg_dontwait = 0x40

abbrev msg_eor : ℕ
msg_eor = 0x80

abbrev msg_waitall : ℕ
msg_waitall = 0x100

abbrev msg_confirm : ℕ
msg_confirm = 0x800

abbrev msg_errqueue : ℕ
msg_errqueue = 0x2000

abbrev msg_nosignal : ℕ
msg_nosignal = 0x4000

abbrev msg_more : ℕ
msg_more = 0x8000

abbrev msg_cmsg_cloexec : ℕ
msg_cmsg_cloexec = 0x40000000

module _ (j : Jansson) where
  unfoldable pub build_send_flags : ℕ → j.Object
  unfolding add_all
  build_send_flags flags = object_of j (
      ("MSG_CONFIRM", truth j (has_flag flags msg_confirm))
      ∷ ("MSG_DONTROUTE", truth j (has_flag flags msg_dontroute))
      ∷ ("MSG_DONTWAIT", truth j (has_flag flags msg_dontwait))
      ∷ ("MSG_EOR", truth j (has_flag flags msg_eor))
      ∷ ("MSG_MORE", truth j (has_flag flags msg_more))
      ∷ ("MSG_NOSIGNAL", truth j (has_flag flags msg_nosignal))
      ∷ ("MSG_OOB", truth j (has_flag flags msg_oob))
      ∷ [])

  unfoldable pub build_recv_flags : ℕ → j.Object
  unfolding add_all
  build_recv_flags flags = object_of j (
      ("MSG_CMSG_CLOEXEC", truth j (has_flag flags msg_cmsg_cloexec))
      ∷ ("MSG_DONTWAIT", truth j (has_flag flags msg_dontwait))
      ∷ ("MSG_ERRQUEUE", truth j (has_flag flags msg_errqueue))
      ∷ ("MSG_OOB", truth j (has_flag flags msg_oob))
      ∷ ("MSG_PEEK", truth j (has_flag flags msg_peek))
      ∷ ("MSG_TRUNC", truth j (has_flag flags msg_trunc))
      ∷ ("MSG_WAITALL", truth j (has_flag flags msg_waitall))
      ∷ [])

  unfoldable pub build_timeout : Timeout → j.Object
  unfolding add_all
  build_timeout timeout =
      object_of j
        (("seconds", number j timeout.seconds) ∷ ("nanoseconds", number j timeout.nanoseconds) ∷ [])

  unfoldable pub build_poll_events : PollEvents → j.Object
  unfolding add_all
  build_poll_events events = object_of j (
      ("POLLIN", truth j events.pollin)
      ∷ ("POLLPRI", truth j events.pollpri)
      ∷ ("POLLOUT", truth j events.pollout)
      ∷ ("POLLRDHUP", truth j events.pollrdhup)
      ∷ ("POLLERR", truth j events.pollerr)
      ∷ ("POLLHUP", truth j events.pollhup)
      ∷ ("POLLNVAL", truth j events.pollnval)
      ∷ [])

  unfoldable pub build_select_events : SelectEvents → j.Object
  unfolding add_all
  build_select_events events = object_of j (
      ("READ", truth j events.read)
      ∷ ("WRITE", truth j events.write)
      ∷ ("EXCEPT", truth j events.except)
      ∷ [])

  -- The flags of `epoll` in their order: EPOLLIN, EPOLLOUT, EPOLLRDHUP, EPOLLPRI, EPOLLERR, EPOLLHUP,
  -- EPOLLET, EPOLLONESHOT and EPOLLWAKEUP of Linux.
  unfoldable pub build_epoll_events : ℕ → j.Object
  unfolding add_all
  build_epoll_events events = object_of j (
      ("EPOLLIN", truth j (has_flag events 0x1))
      ∷ ("EPOLLOUT", truth j (has_flag events 0x4))
      ∷ ("EPOLLRDHUP", truth j (has_flag events 0x2000))
      ∷ ("EPOLLPRI", truth j (has_flag events 0x2))
      ∷ ("EPOLLERR", truth j (has_flag events 0x8))
      ∷ ("EPOLLHUP", truth j (has_flag events 0x10))
      ∷ ("EPOLLET", truth j (has_flag events (2 ^ 31)))
      ∷ ("EPOLLONESHOT", truth j (has_flag events (2 ^ 30)))
      ∷ ("EPOLLWAKEUP", truth j (has_flag events (2 ^ 29)))
      ∷ [])
