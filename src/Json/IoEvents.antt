-- ===== src/Json/IoEvents.antt =====
-- json_builder.c: the objects of the events of unistd.h, uio.h, ioctl.h, sendfile.h, poll.h, select.h, fcntl.h, epoll.h
-- and stdio.h, and of TCP_INFO.
use tcpsnitch.Base.{
  ℕ, ℤ, pos, Bool, Option, some, List, [], ◌∷◌, ◌++◌, String, to_long, eqb_ℤ, ◌==◌, ◌||◌,
  if◌then◌else◌,
}
use tcpsnitch.Outcome.{Outcome, done, fault, dangling}
use tcpsnitch.Bytes.{Text}
use tcpsnitch.Event.{SockInfo, Addr, Iovec, Timeout, PollEvents, SelectEvents, TcpInfo, SockEvent}
use tcpsnitch.Json.{Jansson, Names, text, literal, number, truth, nested}
use tcpsnitch.Json.Memory.{◌>>=◌}
use tcpsnitch.Json.Flags.{build_timeout, build_poll_events, build_select_events, build_epoll_events}
use tcpsnitch.Json.Parts.{build_iovec, build_addr, build_sock_info}
use tcpsnitch.Constants.{alloc_fcntl_cmd_str, alloc_ioctl_request_str}
use tcpsnitch.Json.Fields.{real_call, fake_call, add_fd_flags, add_fl_flags}

-- EPOLL_CTL_ADD 1, EPOLL_CTL_MOD 3, EPOLL_CTL_DEL 2; for any other operation the name is a pointer
-- that has not been set.
unfoldable pub op_name : ℤ → Outcome String
op_name op =
    if eqb_ℤ op (pos 1)
    then done "EPOLL_CTL_ADD"
    else if eqb_ℤ op (pos 3)
    then done "EPOLL_CTL_MOD"
    else if eqb_ℤ op (pos 2)
    then done "EPOLL_CTL_DEL"
    else fault dangling

module _ (j : Jansson) (names : Names) where
  -- Entries that several kinds of events have.
  abbrev info_entry : SockInfo → List (String × Option j.Json)
  info_entry info = ("sock_info", build_sock_info j names info) ∷ []

  abbrev addr_entry : Addr → List (String × Option j.Json)
  addr_entry addr = ("addr", build_addr j names addr) ∷ []

  abbrev bytes_entry : ℕ → List (String × Option j.Json)
  bytes_entry bytes = ("bytes", number j (to_long bytes)) ∷ []

  unfoldable pub build_sock_ev_write : SockEvent → ℕ → j.Object
  build_sock_ev_write ev bytes = real_call j names ev (bytes_entry bytes)

  unfoldable pub build_sock_ev_read : SockEvent → ℕ → j.Object
  build_sock_ev_read ev bytes = real_call j names ev (bytes_entry bytes)

  unfoldable pub build_sock_ev_close : SockEvent → j.Object
  build_sock_ev_close ev = real_call j names ev ([])

  unfoldable pub build_sock_ev_dup : SockEvent → SockInfo → j.Object
  build_sock_ev_dup ev info = real_call j names ev (info_entry info)

  unfoldable pub build_sock_ev_dup2 : SockEvent → SockInfo → ℤ → j.Object
  build_sock_ev_dup2 ev info newfd =
      real_call j names ev (("newfd", number j newfd) ∷ info_entry info)

  unfoldable pub build_sock_ev_dup3 : SockEvent → SockInfo → ℤ → Bool → j.Object
  build_sock_ev_dup3 ev info newfd o_cloexec =
      real_call j names ev
        (("newfd", number j newfd) ∷ ("O_CLOEXEC", truth j o_cloexec) ∷ info_entry info)

  unfoldable pub build_sock_ev_writev : SockEvent → ℕ → Iovec → Outcome j.Object
  build_sock_ev_writev ev bytes iovec = do
    sizes ← build_iovec j iovec
    done (real_call j names ev (bytes_entry bytes ++ ("iovec", nested j sizes) ∷ []))

  unfoldable pub build_sock_ev_readv : SockEvent → ℕ → Iovec → Outcome j.Object
  build_sock_ev_readv ev bytes iovec = do
    sizes ← build_iovec j iovec
    done (real_call j names ev (bytes_entry bytes ++ ("iovec", nested j sizes) ∷ []))

  unfoldable pub build_sock_ev_ioctl : SockEvent → ℕ → j.Object
  build_sock_ev_ioctl ev request =
      real_call j names ev
        (("request", text j (some (alloc_ioctl_request_str names.headers request))) ∷ [])

  unfoldable pub build_sock_ev_sendfile : SockEvent → ℕ → j.Object
  build_sock_ev_sendfile ev bytes = real_call j names ev (bytes_entry bytes)

  unfoldable pub build_sock_ev_poll :
      SockEvent → Timeout → (requested returned : PollEvents) → j.Object
  build_sock_ev_poll ev timeout requested returned = real_call j names ev (
      ("timeout", nested j (build_timeout j timeout))
      ∷ ("requested_events", nested j (build_poll_events j requested))
      ∷ ("returned_events", nested j (build_poll_events j returned))
      ∷ [])

  unfoldable pub build_sock_ev_ppoll :
      SockEvent → Timeout → (requested returned : PollEvents) → j.Object
  build_sock_ev_ppoll ev timeout requested returned = real_call j names ev (
      ("timeout", nested j (build_timeout j timeout))
      ∷ ("requested_events", nested j (build_poll_events j requested))
      ∷ ("returned_events", nested j (build_poll_events j returned))
      ∷ [])

  unfoldable pub build_sock_ev_select :
      SockEvent → Timeout → (requested returned : SelectEvents) → j.Object
  build_sock_ev_select ev timeout requested returned = real_call j names ev (
      ("timeout", nested j (build_timeout j timeout))
      ∷ ("requested_events", nested j (build_select_events j requested))
      ∷ ("returned_events", nested j (build_select_events j returned))
      ∷ [])

  unfoldable pub build_sock_ev_pselect :
      SockEvent → Timeout → (requested returned : SelectEvents) → j.Object
  build_sock_ev_pselect ev timeout requested returned = real_call j names ev (
      ("timeout", nested j (build_timeout j timeout))
      ∷ ("requested_events", nested j (build_select_events j requested))
      ∷ ("returned_events", nested j (build_select_events j returned))
      ∷ [])

  -- By the command: F_GETFD 1, F_GETFL 3; F_SETFD 2, F_SETFL 4; F_DUPFD 0, F_DUPFD_CLOEXEC 1030,
  -- F_SETOWN 8, F_SETSIG 10, F_SETLEASE 1024, F_NOTIFY 1026, F_SETPIPE_SZ 1031.
  unfoldable pub fcntl_entries : SockEvent → ℕ → ℤ → List (String × Option j.Json)
  unfolding add_fd_flags add_fl_flags
  fcntl_entries ev cmd arg =
      if cmd == 1
      then add_fd_flags j ev.return_value
      else if cmd == 3
      then add_fl_flags j ev.return_value
      else if cmd == 2
      then add_fd_flags j arg
      else if cmd == 4
      then add_fl_flags j arg
      else if cmd == 0
          || (cmd == 1030
              || (cmd == 8 || (cmd == 10 || (cmd == 1024 || (cmd == 1026 || cmd == 1031)))))
      then ("arg", number j arg) ∷ []
      else []

  unfoldable pub build_sock_ev_fcntl : SockEvent → SockInfo → ℕ → ℤ → j.Object
  unfolding fcntl_entries
  build_sock_ev_fcntl ev info cmd arg = real_call j names ev (
      ("cmd", text j (some (alloc_fcntl_cmd_str names.headers cmd))) ∷ []
      ++ fcntl_entries ev cmd arg
      ++ (if cmd == 0 || cmd == 1030 then info_entry info else []))

  unfoldable pub build_sock_ev_epoll_ctl : SockEvent → ℤ → ℕ → Outcome j.Object
  unfolding op_name
  build_sock_ev_epoll_ctl ev op requested = do
    name ← op_name op
    done (
        real_call j names ev (
          ("op", literal j name)
          ∷ ("requested_events", nested j (build_epoll_events j requested))
          ∷ []))

  unfoldable pub build_sock_ev_epoll_wait : SockEvent → ℤ → ℕ → j.Object
  build_sock_ev_epoll_wait ev timeout returned = real_call j names ev (
      ("timeout", number j timeout)
      ∷ ("returned_events", nested j (build_epoll_events j returned))
      ∷ [])

  unfoldable pub build_sock_ev_epoll_pwait : SockEvent → ℤ → ℕ → j.Object
  build_sock_ev_epoll_pwait ev timeout returned = real_call j names ev (
      ("timeout", number j timeout)
      ∷ ("returned_events", nested j (build_epoll_events j returned))
      ∷ [])

  unfoldable pub build_sock_ev_fdopen : SockEvent → Text → j.Object
  build_sock_ev_fdopen ev mode = real_call j names ev (("mode", text j (some mode)) ∷ [])

  unfoldable pub build_sock_ev_tcp_info : SockEvent → TcpInfo → j.Object
  build_sock_ev_tcp_info ev i = fake_call j names ev (
      ("state", number j (pos i.state))
      ∷ ("ca_state", number j (pos i.ca_state))
      ∷ ("retransmits", number j (pos i.retransmits))
      ∷ ("probes", number j (pos i.probes))
      ∷ ("backoff", number j (pos i.backoff))
      ∷ ("options", number j (pos i.options))
      ∷ ("snd_wscale", number j (pos i.snd_wscale))
      ∷ ("rcv_wscale", number j (pos i.rcv_wscale))
      ∷ ("rto", number j (pos i.rto))
      ∷ ("ato", number j (pos i.ato))
      ∷ ("snd_mss", number j (pos i.snd_mss))
      ∷ ("rcv_mss", number j (pos i.rcv_mss))
      ∷ ("unacked", number j (pos i.unacked))
      ∷ ("sacked", number j (pos i.sacked))
      ∷ ("lost", number j (pos i.lost))
      ∷ ("retrans", number j (pos i.retrans))
      ∷ ("fackets", number j (pos i.fackets))
      ∷ ("last_data_sent", number j (pos i.last_data_sent))
      ∷ ("last_ack_sent", number j (pos i.last_ack_sent))
      ∷ ("last_data_recv", number j (pos i.last_data_recv))
      ∷ ("last_ack_recv", number j (pos i.last_ack_recv))
      ∷ ("pmtu", number j (pos i.pmtu))
      ∷ ("rcv_ssthresh", number j (pos i.rcv_ssthresh))
      ∷ ("rtt", number j (pos i.rtt))
      ∷ ("rttvar", number j (pos i.rttvar))
      ∷ ("snd_ssthresh", number j (pos i.snd_ssthresh))
      ∷ ("snd_cwnd", number j (pos i.snd_cwnd))
      ∷ ("advmss", number j (pos i.advmss))
      ∷ ("reordering", number j (pos i.reordering))
      ∷ ("rcv_rtt", number j (pos i.rcv_rtt))
      ∷ ("rcv_space", number j (pos i.rcv_space))
      ∷ ("total_retrans", number j (pos i.total_retrans))
      ∷ [])
