-- ===== src/Tracer/IoHandlers.antt =====
-- The hooks of sock_events.c for unistd.h, uio.h, ioctl.h, poll.h, select.h, fcntl.h, epoll.h and
-- stdio.h.
use tcpsnitch.Base.{
  ℕ, ℤ, pos, quot, rem, scale, Bool, false, not, ◌&&◌, ◌||◌, Option, none, some, List, ◌==◌,
  if◌then◌else◌,
}
use tcpsnitch.Outcome.{done}
use tcpsnitch.Bytes.{Text}
use tcpsnitch.Event.{
  sockatmark, isfdtype, write, read, close, dup, dup2, dup3, writev, readv, ioctl, sendfile, poll,
  ppoll, select, pselect, fcntl, epoll_ctl, epoll_wait, epoll_pwait, fdopen, Timeout, SelectEvents,
  blank_info, sockatmark_event, isfdtype_event, write_event, read_event, close_event, dup_event,
  dup2_event, dup3_event, writev_event, readv_event, ioctl_event, sendfile_event, poll_event,
  ppoll_event, select_event, pselect_event, fcntl_event, epoll_ctl_event, epoll_wait_event,
  epoll_pwait_event, fdopen_event,
}
use tcpsnitch.Event.Fill.{fill_iovec, fill_poll_events}
use tcpsnitch.World.{M, ◌>>◌}
use tcpsnitch.Sockets.{free_and_dump_socket}
use tcpsnitch.Tracer.{ev_handler}
use tcpsnitch.Tracer.Handlers.{plan, keep, ◌>>>◌, add_sent, add_received, failed, timeout_of}

unfoldable pub sock_ev_sockatmark : ℕ → ℤ → ℤ → M (Unit {0})
sock_ev_sockatmark fd ret err =
    ev_handler sockatmark sockatmark false fd ret err (done (plan sockatmark_event keep))

unfoldable pub sock_ev_isfdtype : ℕ → ℤ → ℤ → ℤ → M (Unit {0})
sock_ev_isfdtype fd ret err fdtype =
    ev_handler isfdtype isfdtype false fd ret err (done (plan (isfdtype_event fdtype) keep))

unfoldable pub sock_ev_write : ℕ → ℤ → ℤ → ℕ → M (Unit {0})
sock_ev_write fd ret err bytes =
    ev_handler write write false fd ret err (done (plan (write_event bytes) (add_sent bytes)))

unfoldable pub sock_ev_read : ℕ → ℤ → ℤ → ℕ → M (Unit {0})
sock_ev_read fd ret err bytes =
    ev_handler read read false fd ret err (done (plan (read_event bytes) (add_received bytes)))

-- Whatever `close` returned, the socket leaves the table and its events are written out.
unfoldable pub sock_ev_close : ℕ → ℤ → ℤ → M (Unit {0})
sock_ev_close fd ret err = do
  ev_handler close close false fd ret err (done (plan close_event keep))
  free_and_dump_socket fd

unfoldable pub sock_ev_dup : ℕ → ℤ → ℤ → M (Unit {0})
sock_ev_dup fd ret err =
    ev_handler dup dup (not (failed ret)) fd ret err (done (plan (dup_event blank_info) keep))

unfoldable pub sock_ev_dup2 : ℕ → ℤ → ℤ → ℤ → M (Unit {0})
sock_ev_dup2 fd ret err newfd =
    ev_handler dup2 dup2 (not (failed ret)) fd ret err
      (done (plan (dup2_event blank_info newfd) keep))

abbrev pub o_cloexec_flag : ℕ
o_cloexec_flag = 0o2000000

unfoldable pub sock_ev_dup3 : ℕ → ℤ → ℤ → ℤ → ℕ → M (Unit {0})
sock_ev_dup3 fd ret err newfd flags =
    ev_handler dup3 dup3 (not (failed ret)) fd ret err
      (done (plan (dup3_event blank_info newfd (flags == o_cloexec_flag)) keep))

unfoldable pub sock_ev_writev : ℕ → ℤ → ℤ → List ℕ → ℤ → M (Unit {0})
sock_ev_writev fd ret err iovec iovec_count =
    ev_handler writev writev false fd ret err
      (fill_iovec iovec iovec_count >>> λ (v, bytes). plan (writev_event bytes v) (add_sent bytes))

unfoldable pub sock_ev_readv : ℕ → ℤ → ℤ → List ℕ → ℤ → M (Unit {0})
sock_ev_readv fd ret err iovec iovec_count =
    ev_handler readv readv false fd ret err (
      fill_iovec iovec iovec_count >>> λ (v, bytes).
      plan (readv_event bytes v) (add_received bytes))

unfoldable pub sock_ev_ioctl : ℕ → ℤ → ℤ → ℕ → M (Unit {0})
sock_ev_ioctl fd ret err request =
    ev_handler ioctl ioctl false fd ret err (done (plan (ioctl_event request) keep))

-- The bytes that go out through `fd` are added to those received.
unfoldable pub sock_ev_sendfile : ℕ → ℤ → ℤ → ℕ → M (Unit {0})
sock_ev_sendfile fd ret err bytes =
    ev_handler sendfile sendfile false fd ret err
      (done (plan (sendfile_event bytes) (add_received bytes)))

-- The timeout of `poll` is in milliseconds.
unfoldable pub poll_timeout : ℤ → Timeout
poll_timeout timeout = record {
  seconds = quot timeout 1000;
  nanoseconds = scale (rem timeout 1000) 1000;
}

unfoldable pub sock_ev_poll : ℕ → ℤ → ℤ → ℕ → ℕ → ℤ → M (Unit {0})
unfolding poll_timeout
sock_ev_poll fd ret err requested_events returned_events timeout =
    ev_handler poll poll false fd ret err (
      done (
        plan
          (poll_event (poll_timeout timeout) (fill_poll_events requested_events)
            (fill_poll_events returned_events))
          keep))

unfoldable pub sock_ev_ppoll : ℕ → ℤ → ℤ → ℕ → ℕ → Option (ℤ × ℤ) → M (Unit {0})
sock_ev_ppoll fd ret err requested_events returned_events timeout =
    ev_handler ppoll ppoll false fd ret err (
      done (
        plan
          (ppoll_event (timeout_of timeout) (fill_poll_events requested_events)
            (fill_poll_events returned_events))
          keep))

-- A `struct timeval` argument: seconds and microseconds.
unfoldable pub timeval_timeout : Option (ℤ × ℤ) → Timeout
timeval_timeout none = record { seconds = pos 0; nanoseconds = pos 0 }
timeval_timeout (some (sec, usec)) = record { seconds = sec; nanoseconds = scale usec 1000 }

unfoldable pub sock_ev_select :
    ℕ → ℤ → ℤ → SelectEvents → SelectEvents → Option (ℤ × ℤ) → M (Unit {0})
unfolding timeval_timeout
sock_ev_select fd ret err req_ev ret_ev timeout =
    ev_handler select select false fd ret err
      (done (plan (select_event (timeval_timeout timeout) req_ev ret_ev) keep))

unfoldable pub sock_ev_pselect :
    ℕ → ℤ → ℤ → SelectEvents → SelectEvents → Option (ℤ × ℤ) → M (Unit {0})
sock_ev_pselect fd ret err req_ev ret_ev timeout =
    ev_handler pselect pselect false fd ret err
      (done (plan (pselect_event (timeout_of timeout) req_ev ret_ev) keep))

-- Numbers of Linux for F_DUPFD, F_SETFD, F_SETFL, F_SETOWN, F_SETSIG, F_SETLEASE, F_NOTIFY,
-- F_DUPFD_CLOEXEC and F_SETPIPE_SZ, the commands with an `int` argument.
pub takes_int : ℕ → Bool
takes_int cmd =
    cmd == 0
    || (cmd == 2
        || (cmd == 4
            || (cmd == 8
                || (cmd == 10 || (cmd == 1024 || (cmd == 1026 || (cmd == 1030 || cmd == 1031)))))))

unfoldable pub is_dup_cmd : ℕ → Bool
is_dup_cmd cmd = cmd == 0 || cmd == 1030

unfoldable pub sock_ev_fcntl : ℕ → ℤ → ℤ → ℕ → ℤ → M (Unit {0})
unfolding is_dup_cmd
sock_ev_fcntl fd ret err cmd arg =
    ev_handler fcntl fcntl (is_dup_cmd cmd && not (failed ret)) fd ret err
      (done (plan (fcntl_event blank_info cmd (if takes_int cmd then arg else pos 0)) keep))

unfoldable pub sock_ev_epoll_ctl : ℕ → ℤ → ℤ → ℤ → ℕ → M (Unit {0})
sock_ev_epoll_ctl fd ret err op requested_events =
    ev_handler epoll_ctl epoll_ctl false fd ret err
      (done (plan (epoll_ctl_event op requested_events) keep))

unfoldable pub sock_ev_epoll_wait : ℕ → ℤ → ℤ → ℤ → ℕ → M (Unit {0})
sock_ev_epoll_wait fd ret err timeout returned_events =
    ev_handler epoll_wait epoll_wait false fd ret err
      (done (plan (epoll_wait_event timeout returned_events) keep))

unfoldable pub sock_ev_epoll_pwait : ℕ → ℤ → ℤ → ℤ → ℕ → M (Unit {0})
sock_ev_epoll_pwait fd ret err timeout returned_events =
    ev_handler epoll_pwait epoll_pwait false fd ret err
      (done (plan (epoll_pwait_event timeout returned_events) keep))

-- `fdopen` returns a stream or null.
unfoldable pub sock_ev_fdopen : ℕ → Bool → ℤ → Text → M (Unit {0})
sock_ev_fdopen fd stream err mode =
    ev_handler fdopen fdopen false fd (if stream then pos 1 else pos 0) err
      (done (plan (fdopen_event mode) keep))
