-- ===== src/Spec/Refine.antt =====
-- The hooks of sock_events.c against the effects of their calls.
use tcpsnitch.Base.{
  ℕ, ◌≡◌, ℤ, pos, true, false, ◌||◌, Option, none, some, ◌==◌, eqb_ℤ, if◌then◌else◌, Bool-cases,
  inl, inr, refl,
}
use tcpsnitch.Bytes.{Text}
use tcpsnitch.Event.{
  bind, connect, shutdown, listen, accept, accept4, getsockopt, setsockopt, send, recv, sendto,
  recvfrom, sendmsg, recvmsg, sendmmsg, recvmmsg, getsockname, getpeername, sockatmark, isfdtype,
  write, read, dup, dup2, dup3, writev, readv, ioctl, sendfile, poll, ppoll, select, pselect, fcntl,
  epoll_ctl, epoll_wait, epoll_pwait, fdopen, blank_info, bind_event, connect_event, shutdown_event,
  listen_event, accept_event, accept4_event, getsockopt_event, setsockopt_event, send_event,
  recv_event, sendto_event, recvfrom_event, sendmsg_event, recvmsg_event, sendmmsg_event,
  recvmmsg_event, getsockname_event, getpeername_event, sockatmark_event, isfdtype_event,
  write_event, read_event, dup_event, dup2_event, dup3_event, writev_event, readv_event,
  ioctl_event, sendfile_event, poll_event, ppoll_event, select_event, pselect_event,
  epoll_ctl_event, epoll_wait_event, epoll_pwait_event, fdopen_event,
}
use tcpsnitch.Event.Fill.{fill_poll_events}
use tcpsnitch.Event.Fill.Laws.{
  fill_addr-stored, fill_sockopt-copy, fill_iovec-entries, fill_msghdr-stored,
  fill_mmsghdr_vec-stored, FitsName, copied, entries, msg_bytes, stored_msg, stored_vec,
}
use tcpsnitch.World.{World}
use tcpsnitch.Tracer.Handlers.{
  plan, keep, failed, add_sent, add_received, bound_by, timeout_of, returned_addr, given_addr,
  sock_ev_bind, sock_ev_connect, sock_ev_shutdown, sock_ev_listen, sock_ev_accept, sock_ev_accept4,
  sock_ev_getsockopt, sock_ev_setsockopt, sock_ev_send, sock_ev_recv, sock_ev_sendto,
  sock_ev_recvfrom, sock_ev_sendmsg, sock_ev_recvmsg, sock_ev_sendmmsg, sock_ev_recvmmsg,
  sock_ev_getsockname, sock_ev_getpeername,
}
use tcpsnitch.Tracer.IoHandlers.{
  poll_timeout, timeval_timeout, is_dup_cmd, o_cloexec_flag, sock_ev_sockatmark, sock_ev_isfdtype,
  sock_ev_write, sock_ev_read, sock_ev_dup, sock_ev_dup2, sock_ev_dup3, sock_ev_writev,
  sock_ev_readv, sock_ev_ioctl, sock_ev_sendfile, sock_ev_poll, sock_ev_ppoll, sock_ev_select,
  sock_ev_pselect, sock_ev_fcntl, sock_ev_epoll_ctl, sock_ev_epoll_wait, sock_ev_epoll_pwait,
  sock_ev_fdopen,
}
use tcpsnitch.Outcome.{done, Returns, Returns-mono}
use tcpsnitch.Kernel.{Kernel}
use tcpsnitch.Init.LogsDir.{IsSane}
use tcpsnitch.Tracer.{is_tcp_info}
use tcpsnitch.Spec.{setting_of, Abs, Shows}
use tcpsnitch.Spec.Dump.{Serialises}
use tcpsnitch.Spec.Calls.{
  Call, on_socket, on_bind, on_connect, on_shutdown, on_listen, on_accept, on_accept4,
  on_getsockopt, on_setsockopt, on_send, on_recv, on_sendto, on_recvfrom, on_sendmsg, on_recvmsg,
  on_sendmmsg, on_recvmmsg, on_getsockname, on_getpeername, on_sockatmark, on_isfdtype, on_write,
  on_read, on_close, on_dup, on_dup2, on_dup3, on_writev, on_readv, on_ioctl, on_sendfile, on_poll,
  on_ppoll, on_select, on_pselect, on_fcntl, on_epoll_ctl, on_epoll_wait, on_epoll_pwait, on_fdopen,
  run,
}
use tcpsnitch.Spec.Effects.{
  effect_of, IsLegal, addr_at, forth, back, FitsBack, NewFd, iov_bytes, vec_bytes, fcntl_plan,
}
use tcpsnitch.Spec.Steps.{Step}
use tcpsnitch.Spec.Takes.{Takes, handler-Takes, dup-Takes, close-Takes, socket-Takes}

given_addr-forth :
    (addr : Option Text) (len : ℕ) → FitsName addr len → given_addr addr len ≡ done (forth addr len)
unfolding given_addr
given_addr-forth none len f = refl
given_addr-forth (some addr) len f = fill_addr-stored addr len f

returned_addr-back :
    (ret : ℤ) (addr : Option Text) (len : ℕ)
    → FitsBack ret addr len
    → returned_addr ret addr len ≡ done (back ret addr len)
unfolding returned_addr
returned_addr-back ret none len f = refl
returned_addr-back ret (some addr) len f = elim (Bool-cases (failed ret)) [
  | inl e ↦ rw e refl
  | inr e ↦ rw (e, fill_addr-stored addr len (f e)) refl
]

module _ (k : Kernel) (sane : IsSane k) (json : Serialises k) where
  fcntl-Takes :
      (fd : ℕ) (ret err : ℤ) (cmd : ℕ) (arg : ℤ)
      → (is_dup_cmd cmd ≡ true → NewFd fd ret)
      → Takes k (effect_of (on_fcntl fd ret err cmd arg)) (sock_ev_fcntl fd ret err cmd arg)
  unfolding sock_ev_fcntl is_tcp_info
  fcntl-Takes fd ret err cmd arg new a w = elim (Bool-cases (is_dup_cmd cmd)) [
    | inl e ↦ rw e (dup-Takes k sane fcntl fd ret err (fcntl_plan cmd arg) (new e) refl a w)
    | inr e ↦ rw e (handler-Takes k sane fcntl fcntl fd ret err (fcntl_plan cmd arg) refl a w)
  ]

  pub run-Takes : (c : Call) → IsLegal c → Takes k (effect_of c) (run c)
  unfolding is_tcp_info sock_ev_bind sock_ev_connect sock_ev_shutdown sock_ev_listen sock_ev_accept
      sock_ev_accept4 sock_ev_getsockopt sock_ev_setsockopt sock_ev_send sock_ev_recv sock_ev_sendto
      sock_ev_recvfrom sock_ev_sendmsg sock_ev_recvmsg sock_ev_sendmmsg sock_ev_recvmmsg
      sock_ev_getsockname sock_ev_getpeername sock_ev_sockatmark sock_ev_isfdtype sock_ev_write
      sock_ev_read sock_ev_dup sock_ev_dup2 sock_ev_dup3 sock_ev_writev sock_ev_readv sock_ev_ioctl
      sock_ev_sendfile sock_ev_poll sock_ev_ppoll sock_ev_select sock_ev_pselect sock_ev_epoll_ctl
      sock_ev_epoll_wait sock_ev_epoll_pwait sock_ev_fdopen
  run-Takes (on_socket fd domain type protocol) _ = socket-Takes k sane json fd domain type protocol
  run-Takes (on_bind fd ret err addr len) legal = λ a w. rw (fill_addr-stored addr len legal) (
      handler-Takes k sane bind bind fd ret err
        (plan (bind_event (addr_at addr len)) (bound_by ret (addr_at addr len))) refl a w)
  run-Takes (on_connect fd ret err addr len) legal = λ a w. rw (fill_addr-stored addr len legal) (
      handler-Takes k sane connect connect fd ret err (plan (connect_event (addr_at addr len)) keep)
        refl a w)
  run-Takes (on_shutdown fd ret err how) _ =
      handler-Takes k sane shutdown shutdown fd ret err
        (plan
          (shutdown_event (eqb_ℤ how (pos 0) || eqb_ℤ how (pos 2))
            (eqb_ℤ how (pos 1) || eqb_ℤ how (pos 2)))
          keep)
        refl
  run-Takes (on_listen fd ret err backlog) _ =
      handler-Takes k sane listen listen fd ret err (plan (listen_event backlog) keep) refl
  run-Takes (on_accept fd ret err addr len) legal = λ a w.
      rw (returned_addr-back ret addr len (legal.1)) (
        dup-Takes k sane accept fd ret err (plan (accept_event blank_info (back ret addr len)) keep)
          legal.0 refl a w)
  run-Takes (on_accept4 fd ret err addr len flags) legal = λ a w.
      rw (returned_addr-back ret addr len (legal.1)) (
        dup-Takes k sane accept4 fd ret err
          (plan (accept4_event blank_info (back ret addr len) flags) keep) legal.0 refl a w)
  run-Takes (on_getsockopt fd ret err level optname optval optlen) legal = λ a w.
      rw (fill_sockopt-copy level optname optval optlen true fd legal) (
        handler-Takes k sane getsockopt setsockopt fd ret err
          (plan
            (getsockopt_event (record {
              level = level;
              optname = optname;
              optval = copied optval optlen;
              optlen = optlen;
              getsockopt = true;
              fd = fd;
            }))
            keep)
          refl a w)
  run-Takes (on_setsockopt fd ret err level optname optval optlen) legal = λ a w.
      rw (fill_sockopt-copy level optname optval optlen false fd legal) (
        handler-Takes k sane setsockopt setsockopt fd ret err
          (plan
            (setsockopt_event (record {
              level = level;
              optname = optname;
              optval = copied optval optlen;
              optlen = optlen;
              getsockopt = false;
              fd = fd;
            }))
            keep)
          refl a w)
  run-Takes (on_send fd ret err bytes flags) _ =
      handler-Takes k sane send send fd ret err (plan (send_event bytes flags) (add_sent bytes))
        refl
  run-Takes (on_recv fd ret err bytes flags) _ =
      handler-Takes k sane recv recv fd ret err (plan (recv_event bytes flags) (add_received bytes))
        refl
  run-Takes (on_sendto fd ret err bytes flags addr len) legal = λ a w.
      rw (given_addr-forth addr len legal) (
        handler-Takes k sane sendto sendto fd ret err
          (plan (sendto_event bytes flags (forth addr len)) (add_sent bytes)) refl a w)
  run-Takes (on_recvfrom fd ret err bytes flags addr len) legal = λ a w.
      rw (returned_addr-back ret addr len legal) (
        handler-Takes k sane recvfrom recvfrom fd ret err
          (plan (recvfrom_event bytes flags (back ret addr len)) (add_received bytes)) refl a w)
  run-Takes (on_sendmsg fd ret err msg flags) legal = λ a w. rw (fill_msghdr-stored msg legal) (
      handler-Takes k sane sendmsg sendmsg fd ret err
        (plan (sendmsg_event (msg_bytes msg) flags (stored_msg msg)) (add_sent (msg_bytes msg)))
        refl a w)
  run-Takes (on_recvmsg fd ret err msg flags) legal = λ a w. rw (fill_msghdr-stored msg legal) (
      handler-Takes k sane recvmsg recvmsg fd ret err
        (plan (recvmsg_event (msg_bytes msg) flags (stored_msg msg)) (add_received (msg_bytes msg)))
        refl a w)
  run-Takes (on_sendmmsg fd ret err vec vlen flags) legal = λ a w.
      rw (fill_mmsghdr_vec-stored vec vlen legal) (
        handler-Takes k sane sendmmsg sendmmsg fd ret err
          (plan (sendmmsg_event (vec_bytes vec vlen) flags vlen (stored_vec vec vlen))
            (add_sent (vec_bytes vec vlen)))
          refl a w)
  run-Takes (on_recvmmsg fd ret err vec vlen flags tmo) legal = λ a w.
      rw (fill_mmsghdr_vec-stored vec vlen legal) (
        handler-Takes k sane recvmmsg recvmmsg fd ret err
          (plan
            (recvmmsg_event (vec_bytes vec vlen) flags (timeout_of tmo) vlen (stored_vec vec vlen))
            (add_received (vec_bytes vec vlen)))
          refl a w)
  run-Takes (on_getsockname fd ret err addr len) legal = λ a w.
      rw (returned_addr-back ret (some addr) len legal) (
        handler-Takes k sane getsockname getsockname fd ret err
          (plan (getsockname_event (back ret (some addr) len)) keep) refl a w)
  run-Takes (on_getpeername fd ret err addr len) legal = λ a w.
      rw (returned_addr-back ret (some addr) len legal) (
        handler-Takes k sane getpeername getpeername fd ret err
          (plan (getpeername_event (back ret (some addr) len)) keep) refl a w)
  run-Takes (on_sockatmark fd ret err) _ =
      handler-Takes k sane sockatmark sockatmark fd ret err (plan sockatmark_event keep) refl
  run-Takes (on_isfdtype fd ret err fdtype) _ =
      handler-Takes k sane isfdtype isfdtype fd ret err (plan (isfdtype_event fdtype) keep) refl
  run-Takes (on_write fd ret err bytes) _ =
      handler-Takes k sane write write fd ret err (plan (write_event bytes) (add_sent bytes)) refl
  run-Takes (on_read fd ret err bytes) _ =
      handler-Takes k sane read read fd ret err (plan (read_event bytes) (add_received bytes)) refl
  run-Takes (on_close fd ret err) _ = close-Takes k sane json fd ret err
  run-Takes (on_dup fd ret err) legal =
      dup-Takes k sane dup fd ret err (plan (dup_event blank_info) keep) legal refl
  run-Takes (on_dup2 fd ret err newfd) legal =
      dup-Takes k sane dup2 fd ret err (plan (dup2_event blank_info newfd) keep) legal refl
  run-Takes (on_dup3 fd ret err newfd flags) legal =
      dup-Takes k sane dup3 fd ret err
        (plan (dup3_event blank_info newfd (flags == o_cloexec_flag)) keep) legal refl
  run-Takes (on_writev fd ret err vec n) legal = λ a w. rw (fill_iovec-entries vec n legal) (
      handler-Takes k sane writev writev fd ret err
        (plan
          (writev_event (iov_bytes vec n) (record { iovec_count = n; iovec_sizes = entries vec n }))
          (add_sent (iov_bytes vec n)))
        refl a w)
  run-Takes (on_readv fd ret err vec n) legal = λ a w. rw (fill_iovec-entries vec n legal) (
      handler-Takes k sane readv readv fd ret err
        (plan
          (readv_event (iov_bytes vec n) (record { iovec_count = n; iovec_sizes = entries vec n }))
          (add_received (iov_bytes vec n)))
        refl a w)
  run-Takes (on_ioctl fd ret err request) _ =
      handler-Takes k sane ioctl ioctl fd ret err (plan (ioctl_event request) keep) refl
  run-Takes (on_sendfile fd ret err bytes) _ =
      handler-Takes k sane sendfile sendfile fd ret err
        (plan (sendfile_event bytes) (add_received bytes)) refl
  run-Takes (on_poll fd ret err requested returned timeout) _ =
      handler-Takes k sane poll poll fd ret err
        (plan
          (poll_event (poll_timeout timeout) (fill_poll_events requested)
            (fill_poll_events returned))
          keep)
        refl
  run-Takes (on_ppoll fd ret err requested returned timeout) _ =
      handler-Takes k sane ppoll ppoll fd ret err
        (plan
          (ppoll_event (timeout_of timeout) (fill_poll_events requested)
            (fill_poll_events returned))
          keep)
        refl
  run-Takes (on_select fd ret err requested returned timeout) _ =
      handler-Takes k sane select select fd ret err
        (plan (select_event (timeval_timeout timeout) requested returned) keep) refl
  run-Takes (on_pselect fd ret err requested returned timeout) _ =
      handler-Takes k sane pselect pselect fd ret err
        (plan (pselect_event (timeout_of timeout) requested returned) keep) refl
  run-Takes (on_fcntl fd ret err cmd arg) legal = fcntl-Takes fd ret err cmd arg legal
  run-Takes (on_epoll_ctl fd ret err op requested) _ =
      handler-Takes k sane epoll_ctl epoll_ctl fd ret err (plan (epoll_ctl_event op requested) keep)
        refl
  run-Takes (on_epoll_wait fd ret err timeout returned) _ =
      handler-Takes k sane epoll_wait epoll_wait fd ret err
        (plan (epoll_wait_event timeout returned) keep) refl
  run-Takes (on_epoll_pwait fd ret err timeout returned) _ =
      handler-Takes k sane epoll_pwait epoll_pwait fd ret err
        (plan (epoll_pwait_event timeout returned) keep) refl
  run-Takes (on_fdopen fd stream err mode) _ =
      handler-Takes k sane fdopen fdopen fd (if stream then pos 1 else pos 0) err
        (plan (fdopen_event mode) keep) refl

  -- Every hook, on a legal call and from any state of the tracer, returns without a fault and leaves no
  -- lock, in a state that the effect of the call leads to, with the directory of the traces and the
  -- options as the hook leaves them; where the surroundings are sane and every event can be made a JSON
  -- text, an answer of the surroundings here. What a closed or replaced socket has recorded is in its
  -- file in that directory, unless this file cannot be had.
  pub run-Step :
      (c : Call) {a : Abs} {w : World}
      → IsLegal c
      → Shows a w
      → Returns
          (λ (_, v). (b : Abs) × Step k (setting_of true v) (effect_of c) a b × Shows b v)
          (run c k w)
  run-Step c legal shows =
      Returns-mono (run-Takes c legal _ _ shows) (λ (_, v) (reached, _, _). reached)
