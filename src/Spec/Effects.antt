-- ===== src/Spec/Effects.antt =====
-- What each call is to do to the state of the tracer, apart from the hook of sock_events.c that does it.
use tcpsnitch.Base.{
  ℕ, zero, suc, ◌%◌, ◌^◌, ◌≤◌, ◌≡◌, ◌≢◌, ℤ, pos, negsuc, true, false, ◌||◌, Option, none, some,
  List, ◌==◌, eqb_ℤ, if◌then◌else◌, length,
}
use tcpsnitch.Bytes.{Text}
use tcpsnitch.Event.{
  SockEventType, bind, connect, shutdown, listen, accept, accept4, getsockopt, setsockopt, send,
  recv, sendto, recvfrom, sendmsg, recvmsg, sendmmsg, recvmmsg, getsockname, getpeername,
  sockatmark, isfdtype, write, read, dup, dup2, dup3, writev, readv, ioctl, sendfile, poll, ppoll,
  select, pselect, fcntl, epoll_ctl, epoll_wait, epoll_pwait, fdopen, SockInfo, Addr, blank_info,
  blank_addr, bind_event, connect_event, shutdown_event, listen_event, accept_event, accept4_event,
  getsockopt_event, setsockopt_event, send_event, recv_event, sendto_event, recvfrom_event,
  sendmsg_event, recvmsg_event, sendmmsg_event, recvmmsg_event, getsockname_event,
  getpeername_event, sockatmark_event, isfdtype_event, write_event, read_event, dup_event,
  dup2_event, dup3_event, writev_event, readv_event, ioctl_event, sendfile_event, poll_event,
  ppoll_event, select_event, pselect_event, fcntl_event, epoll_ctl_event, epoll_wait_event,
  epoll_pwait_event, fdopen_event,
}
use tcpsnitch.Event.Fill.{MmsghdrArg, fill_sock_info, fill_poll_events}
use tcpsnitch.Event.Fill.Laws.{
  FitsAddr, FitsVec, FitsName, FitsMsg, AllFit, stored, copied, entries, sum, msg_bytes, stored_msg,
  total_bytes, stored_vec,
}
use tcpsnitch.Tracer.{Plan}
use tcpsnitch.Tracer.Handlers.{plan, keep, failed, add_sent, add_received, bound_by, timeout_of}
use tcpsnitch.Tracer.IoHandlers.{
  poll_timeout, timeval_timeout, is_dup_cmd, takes_int, o_cloexec_flag,
}
use tcpsnitch.Spec.Calls.{
  Call, on_socket, on_bind, on_connect, on_shutdown, on_listen, on_accept, on_accept4,
  on_getsockopt, on_setsockopt, on_send, on_recv, on_sendto, on_recvfrom, on_sendmsg, on_recvmsg,
  on_sendmmsg, on_recvmmsg, on_getsockname, on_getpeername, on_sockatmark, on_isfdtype, on_write,
  on_read, on_close, on_dup, on_dup2, on_dup3, on_writev, on_readv, on_ioctl, on_sendfile, on_poll,
  on_ppoll, on_select, on_pselect, on_fcntl, on_epoll_ctl, on_epoll_wait, on_epoll_pwait, on_fdopen,
}

-- What a call is to leave: an event in the socket of `fd`, a copy of the socket too where the call
-- has made a descriptor, a new socket, or the socket's file.
pub data Effect : Type 0 where
  logs dups : (type : SockEventType) (fd : ℕ) (ret err : ℤ) → Plan → Effect
  opens : (fd : ℕ) → SockInfo → Effect
  closes : (fd : ℕ) (ret err : ℤ) → Effect

abbrev pub addr_at : Text → ℕ → Addr
addr_at addr len = record { sockaddr_sto = stored addr len; len = len }

-- An address that the program gives, and one that it is given back.
abbrev pub forth : Option Text → ℕ → Addr
forth none len = blank_addr
forth (some addr) len = addr_at addr len

abbrev pub back : ℤ → Option Text → ℕ → Addr
back ret none len = blank_addr
back ret (some addr) len = if failed ret then blank_addr else addr_at addr len

abbrev pub FitsBack : ℤ → Option Text → ℕ → Type 0
FitsBack ret none len = Unit {0}
FitsBack ret (some addr) len = failed ret ≡ false → FitsAddr addr len

-- What a call that makes a descriptor can return: one that is not `fd`, or -1.
abbrev pub NewFd : ℕ → ℤ → Type 0
NewFd fd (pos r) = fd ≢ r
NewFd fd (negsuc zero) = Unit {0}
NewFd fd (negsuc (suc n)) = ⊥

abbrev pub iov_bytes : List ℕ → ℤ → ℕ
iov_bytes vec n = sum (entries vec n) % 2 ^ 32

abbrev pub vec_bytes : List MmsghdrArg → ℕ → ℕ
vec_bytes vec n = total_bytes vec n % 2 ^ 32

abbrev pub fcntl_plan : ℕ → ℤ → Plan
fcntl_plan cmd arg = plan (fcntl_event blank_info cmd (if takes_int cmd then arg else pos 0)) keep

abbrev pub effect_of : Call → Effect
effect_of (on_socket fd domain type protocol) = opens fd (fill_sock_info domain type protocol)
effect_of (on_bind fd ret err addr len) =
    logs bind fd ret err (plan (bind_event (addr_at addr len)) (bound_by ret (addr_at addr len)))
effect_of (on_connect fd ret err addr len) =
    logs connect fd ret err (plan (connect_event (addr_at addr len)) keep)
effect_of (on_shutdown fd ret err how) = logs shutdown fd ret err (
    plan
      (shutdown_event (eqb_ℤ how (pos 0) || eqb_ℤ how (pos 2))
        (eqb_ℤ how (pos 1) || eqb_ℤ how (pos 2)))
      keep)
effect_of (on_listen fd ret err backlog) = logs listen fd ret err (plan (listen_event backlog) keep)
effect_of (on_accept fd ret err addr len) =
    dups accept fd ret err (plan (accept_event blank_info (back ret addr len)) keep)
effect_of (on_accept4 fd ret err addr len flags) =
    dups accept4 fd ret err (plan (accept4_event blank_info (back ret addr len) flags) keep)
effect_of (on_getsockopt fd ret err level optname optval optlen) = logs getsockopt fd ret err (
    plan
      (getsockopt_event (record {
        level = level;
        optname = optname;
        optval = copied optval optlen;
        optlen = optlen;
        getsockopt = true;
        fd = fd;
      }))
      keep)
effect_of (on_setsockopt fd ret err level optname optval optlen) = logs setsockopt fd ret err (
    plan
      (setsockopt_event (record {
        level = level;
        optname = optname;
        optval = copied optval optlen;
        optlen = optlen;
        getsockopt = false;
        fd = fd;
      }))
      keep)
effect_of (on_send fd ret err bytes flags) =
    logs send fd ret err (plan (send_event bytes flags) (add_sent bytes))
effect_of (on_recv fd ret err bytes flags) =
    logs recv fd ret err (plan (recv_event bytes flags) (add_received bytes))
effect_of (on_sendto fd ret err bytes flags addr len) =
    logs sendto fd ret err (plan (sendto_event bytes flags (forth addr len)) (add_sent bytes))
effect_of (on_recvfrom fd ret err bytes flags addr len) =
    logs recvfrom fd ret err
      (plan (recvfrom_event bytes flags (back ret addr len)) (add_received bytes))
effect_of (on_sendmsg fd ret err msg flags) =
    logs sendmsg fd ret err
      (plan (sendmsg_event (msg_bytes msg) flags (stored_msg msg)) (add_sent (msg_bytes msg)))
effect_of (on_recvmsg fd ret err msg flags) =
    logs recvmsg fd ret err
      (plan (recvmsg_event (msg_bytes msg) flags (stored_msg msg)) (add_received (msg_bytes msg)))
effect_of (on_sendmmsg fd ret err vec vlen flags) = logs sendmmsg fd ret err (
    plan (sendmmsg_event (vec_bytes vec vlen) flags vlen (stored_vec vec vlen))
      (add_sent (vec_bytes vec vlen)))
effect_of (on_recvmmsg fd ret err vec vlen flags tmo) = logs recvmmsg fd ret err (
    plan (recvmmsg_event (vec_bytes vec vlen) flags (timeout_of tmo) vlen (stored_vec vec vlen))
      (add_received (vec_bytes vec vlen)))
effect_of (on_getsockname fd ret err addr len) =
    logs getsockname fd ret err (plan (getsockname_event (back ret (some addr) len)) keep)
effect_of (on_getpeername fd ret err addr len) =
    logs getpeername fd ret err (plan (getpeername_event (back ret (some addr) len)) keep)
effect_of (on_sockatmark fd ret err) = logs sockatmark fd ret err (plan sockatmark_event keep)
effect_of (on_isfdtype fd ret err fdtype) =
    logs isfdtype fd ret err (plan (isfdtype_event fdtype) keep)
effect_of (on_write fd ret err bytes) =
    logs write fd ret err (plan (write_event bytes) (add_sent bytes))
effect_of (on_read fd ret err bytes) =
    logs read fd ret err (plan (read_event bytes) (add_received bytes))
effect_of (on_close fd ret err) = closes fd ret err
effect_of (on_dup fd ret err) = dups dup fd ret err (plan (dup_event blank_info) keep)
effect_of (on_dup2 fd ret err newfd) =
    dups dup2 fd ret err (plan (dup2_event blank_info newfd) keep)
effect_of (on_dup3 fd ret err newfd flags) =
    dups dup3 fd ret err (plan (dup3_event blank_info newfd (flags == o_cloexec_flag)) keep)
effect_of (on_writev fd ret err vec n) = logs writev fd ret err (
    plan (writev_event (iov_bytes vec n) (record { iovec_count = n; iovec_sizes = entries vec n }))
      (add_sent (iov_bytes vec n)))
effect_of (on_readv fd ret err vec n) = logs readv fd ret err (
    plan (readv_event (iov_bytes vec n) (record { iovec_count = n; iovec_sizes = entries vec n }))
      (add_received (iov_bytes vec n)))
effect_of (on_ioctl fd ret err request) = logs ioctl fd ret err (plan (ioctl_event request) keep)
effect_of (on_sendfile fd ret err bytes) =
    logs sendfile fd ret err (plan (sendfile_event bytes) (add_received bytes))
effect_of (on_poll fd ret err requested returned timeout) = logs poll fd ret err (
    plan
      (poll_event (poll_timeout timeout) (fill_poll_events requested) (fill_poll_events returned))
      keep)
effect_of (on_ppoll fd ret err requested returned timeout) = logs ppoll fd ret err (
    plan (ppoll_event (timeout_of timeout) (fill_poll_events requested) (fill_poll_events returned))
      keep)
effect_of (on_select fd ret err requested returned timeout) =
    logs select fd ret err (plan (select_event (timeval_timeout timeout) requested returned) keep)
effect_of (on_pselect fd ret err requested returned timeout) =
    logs pselect fd ret err (plan (pselect_event (timeout_of timeout) requested returned) keep)
effect_of (on_fcntl fd ret err cmd arg) =
    if is_dup_cmd cmd
    then dups fcntl fd ret err (fcntl_plan cmd arg)
    else logs fcntl fd ret err (fcntl_plan cmd arg)
effect_of (on_epoll_ctl fd ret err op requested) =
    logs epoll_ctl fd ret err (plan (epoll_ctl_event op requested) keep)
effect_of (on_epoll_wait fd ret err timeout returned) =
    logs epoll_wait fd ret err (plan (epoll_wait_event timeout returned) keep)
effect_of (on_epoll_pwait fd ret err timeout returned) =
    logs epoll_pwait fd ret err (plan (epoll_pwait_event timeout returned) keep)
effect_of (on_fdopen fd stream err mode) =
    logs fdopen fd (if stream then pos 1 else pos 0) err (plan (fdopen_event mode) keep)

-- The blocks of a call are as long as it says, and a new descriptor is not `fd`.
abbrev pub IsLegal : Call → Type 0
IsLegal (on_bind fd ret err addr len) = FitsAddr addr len
IsLegal (on_connect fd ret err addr len) = FitsAddr addr len
IsLegal (on_accept fd ret err addr len) = NewFd fd ret × FitsBack ret addr len
IsLegal (on_accept4 fd ret err addr len flags) = NewFd fd ret × FitsBack ret addr len
IsLegal (on_getsockopt fd ret err level optname optval optlen) = optlen ≤ length optval
IsLegal (on_setsockopt fd ret err level optname optval optlen) = optlen ≤ length optval
IsLegal (on_sendto fd ret err bytes flags addr len) = FitsName addr len
IsLegal (on_recvfrom fd ret err bytes flags addr len) = FitsBack ret addr len
IsLegal (on_sendmsg fd ret err msg flags) = FitsMsg msg
IsLegal (on_recvmsg fd ret err msg flags) = FitsMsg msg
IsLegal (on_sendmmsg fd ret err vec vlen flags) = AllFit vec vlen
IsLegal (on_recvmmsg fd ret err vec vlen flags tmo) = AllFit vec vlen
IsLegal (on_getsockname fd ret err addr len) = FitsBack ret (some addr) len
IsLegal (on_getpeername fd ret err addr len) = FitsBack ret (some addr) len
IsLegal (on_dup fd ret err) = NewFd fd ret
IsLegal (on_dup2 fd ret err newfd) = NewFd fd ret
IsLegal (on_dup3 fd ret err newfd flags) = NewFd fd ret
IsLegal (on_writev fd ret err vec n) = FitsVec vec n
IsLegal (on_readv fd ret err vec n) = FitsVec vec n
IsLegal (on_fcntl fd ret err cmd arg) = is_dup_cmd cmd ≡ true → NewFd fd ret
IsLegal _ = Unit {0}
