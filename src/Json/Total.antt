-- ===== src/Json/Total.antt =====
-- Every event is made a JSON object without a fault, and the object tells the event
-- (json_builder.c).
use tcpsnitch.Base.{◌≡◌, refl, sym, inl, inr, ℤ, pos, subst, ◌⊎◌, arith}
use tcpsnitch.Outcome.{Returns, returns, Returns-bind}
use tcpsnitch.Event
use tcpsnitch.Event.{SockEvent, Details}
use tcpsnitch.Event.Whole.{FitsDetails}
use tcpsnitch.Json.{Jansson, IsJansson, Names}
use tcpsnitch.Json.SocketEvents.{
  build_sock_ev_socket, build_sock_ev_forked_socket, build_sock_ev_ghost_socket, build_sock_ev_bind,
  build_sock_ev_connect, build_sock_ev_shutdown, build_sock_ev_listen, build_sock_ev_accept,
  build_sock_ev_accept4, build_sock_ev_getsockopt, build_sock_ev_setsockopt, build_sock_ev_send,
  build_sock_ev_recv, build_sock_ev_sendto, build_sock_ev_recvfrom, build_sock_ev_sendmsg,
  build_sock_ev_recvmsg, build_sock_ev_sendmmsg, build_sock_ev_recvmmsg, build_sock_ev_getsockname,
  build_sock_ev_getpeername, build_sock_ev_sockatmark, build_sock_ev_isfdtype,
}
use tcpsnitch.Json.IoEvents.{
  fcntl_entries, op_name, build_sock_ev_write, build_sock_ev_read, build_sock_ev_close,
  build_sock_ev_dup, build_sock_ev_dup2, build_sock_ev_dup3, build_sock_ev_writev,
  build_sock_ev_readv, build_sock_ev_ioctl, build_sock_ev_sendfile, build_sock_ev_poll,
  build_sock_ev_ppoll, build_sock_ev_select, build_sock_ev_pselect, build_sock_ev_fcntl,
  build_sock_ev_epoll_ctl, build_sock_ev_epoll_wait, build_sock_ev_epoll_pwait,
  build_sock_ev_fdopen, build_sock_ev_tcp_info,
}
use tcpsnitch.Json.Parts.{build_mmsghdr_vec}
use tcpsnitch.Json.Build.{build_as, build_sock_ev}
use tcpsnitch.Event.Kinds.{kind}
use tcpsnitch.Json.Contents.{is_fake, bytes_of, info_of}
use tcpsnitch.Json.Reported.{Reported}
use tcpsnitch.Json.Kinds.{tcp_info-Reported, quiet-Reported, fake-Reported, counted-Reported}
use tcpsnitch.Json.WholeOptions.{add_sockopt-Quiet}
use tcpsnitch.Json.Whole.{Total, build_iovec-Total, build_msghdr-Total, append_messages-Total}

op_name-Total : (op : ℤ) → (op ≡ pos 1) ⊎ ((op ≡ pos 2) ⊎ (op ≡ pos 3)) → Total (op_name op)
unfolding op_name
op_name-Total op (inl e) = subst (λ o. Total (op_name o)) (sym e) (returns tt)
op_name-Total op (inr (inl e)) = subst (λ o. Total (op_name o)) (sym e) (returns tt)
op_name-Total op (inr (inr e)) = subst (λ o. Total (op_name o)) (sym e) (returns tt)

module _ (j : Jansson) (laws : IsJansson j) (names : Names) (ev : SockEvent) where
  build_as-Reported :
      (c : Details)
      → ev.details ≡ c
      → kind c ≡ ev.type
      → FitsDetails c
      → Returns (Reported j names ev) (build_as j names ev (kind c) c)
  unfolding build_as kind is_fake bytes_of info_of fcntl_entries build_mmsghdr_vec
      build_sock_ev_socket build_sock_ev_forked_socket build_sock_ev_ghost_socket build_sock_ev_bind
      build_sock_ev_connect build_sock_ev_shutdown build_sock_ev_listen build_sock_ev_accept
      build_sock_ev_accept4 build_sock_ev_getsockopt build_sock_ev_setsockopt build_sock_ev_send
      build_sock_ev_recv build_sock_ev_sendto build_sock_ev_recvfrom build_sock_ev_sendmsg
      build_sock_ev_recvmsg build_sock_ev_sendmmsg build_sock_ev_recvmmsg build_sock_ev_getsockname
      build_sock_ev_getpeername build_sock_ev_sockatmark build_sock_ev_isfdtype build_sock_ev_write
      build_sock_ev_read build_sock_ev_close build_sock_ev_dup build_sock_ev_dup2 build_sock_ev_dup3
      build_sock_ev_writev build_sock_ev_readv build_sock_ev_ioctl build_sock_ev_sendfile
      build_sock_ev_poll build_sock_ev_ppoll build_sock_ev_select build_sock_ev_pselect
      build_sock_ev_fcntl build_sock_ev_epoll_ctl build_sock_ev_epoll_wait build_sock_ev_epoll_pwait
      build_sock_ev_fdopen build_sock_ev_tcp_info
  build_as-Reported (Event.socket_event info) d t _ =
      returns (quiet-Reported j laws names ev _ _ d t refl refl refl refl refl)
  build_as-Reported (Event.forked_socket_event info) d t _ =
      returns (fake-Reported j laws names ev _ _ d t refl refl refl refl refl)
  build_as-Reported (Event.ghost_socket_event info) d t _ =
      returns (fake-Reported j laws names ev _ _ d t refl refl refl refl refl)
  build_as-Reported (Event.bind_event addr) d t _ =
      returns (quiet-Reported j laws names ev _ _ d t refl refl refl refl refl)
  build_as-Reported (Event.connect_event addr) d t _ =
      returns (quiet-Reported j laws names ev _ _ d t refl refl refl refl refl)
  build_as-Reported (Event.shutdown_event rd wr) d t _ =
      returns (quiet-Reported j laws names ev _ _ d t refl refl refl refl refl)
  build_as-Reported (Event.listen_event backlog) d t _ =
      returns (quiet-Reported j laws names ev _ _ d t refl refl refl refl refl)
  build_as-Reported (Event.accept_event info addr) d t _ =
      returns (quiet-Reported j laws names ev _ _ d t refl refl refl refl refl)
  build_as-Reported (Event.accept4_event info addr flags) d t _ =
      returns (quiet-Reported j laws names ev _ _ d t refl refl refl refl refl)
  build_as-Reported (Event.getsockopt_event opt) d t h =
      Returns-bind (add_sockopt-Quiet j names opt h) (λ entries (eb, es).
        returns (quiet-Reported j laws names ev _ entries d t refl refl refl eb es))
  build_as-Reported (Event.setsockopt_event opt) d t h =
      Returns-bind (add_sockopt-Quiet j names opt h) (λ entries (eb, es).
        returns (quiet-Reported j laws names ev _ entries d t refl refl refl eb es))
  build_as-Reported (Event.send_event bytes flags) d t _ =
      returns (counted-Reported j laws names ev _ _ bytes d t refl refl refl refl refl)
  build_as-Reported (Event.recv_event bytes flags) d t _ =
      returns (counted-Reported j laws names ev _ _ bytes d t refl refl refl refl refl)
  build_as-Reported (Event.sendto_event bytes flags addr) d t _ =
      returns (counted-Reported j laws names ev _ _ bytes d t refl refl refl refl refl)
  build_as-Reported (Event.recvfrom_event bytes flags addr) d t _ =
      returns (counted-Reported j laws names ev _ _ bytes d t refl refl refl refl refl)
  build_as-Reported (Event.sendmsg_event bytes flags msg) d t h =
      Returns-bind (build_msghdr-Total j msg h)
        (λ _ _. returns (counted-Reported j laws names ev _ _ bytes d t refl refl refl refl refl))
  build_as-Reported (Event.recvmsg_event bytes flags msg) d t h =
      Returns-bind (build_msghdr-Total j msg h)
        (λ _ _. returns (counted-Reported j laws names ev _ _ bytes d t refl refl refl refl refl))
  build_as-Reported (Event.sendmmsg_event bytes flags count vec) d t h =
      Returns-bind (append_messages-Total j h _)
        (λ _ _. returns (counted-Reported j laws names ev _ _ bytes d t refl refl refl refl refl))
  build_as-Reported (Event.recvmmsg_event bytes flags timeout count vec) d t h =
      Returns-bind (append_messages-Total j h _)
        (λ _ _. returns (counted-Reported j laws names ev _ _ bytes d t refl refl refl refl refl))
  build_as-Reported (Event.getsockname_event addr) d t _ =
      returns (quiet-Reported j laws names ev _ _ d t refl refl refl refl refl)
  build_as-Reported (Event.getpeername_event addr) d t _ =
      returns (quiet-Reported j laws names ev _ _ d t refl refl refl refl refl)
  build_as-Reported Event.sockatmark_event d t _ =
      returns (quiet-Reported j laws names ev _ _ d t refl refl refl refl refl)
  build_as-Reported (Event.isfdtype_event fdtype) d t _ =
      returns (quiet-Reported j laws names ev _ _ d t refl refl refl refl refl)
  build_as-Reported (Event.write_event bytes) d t _ =
      returns (counted-Reported j laws names ev _ _ bytes d t refl refl refl refl refl)
  build_as-Reported (Event.read_event bytes) d t _ =
      returns (counted-Reported j laws names ev _ _ bytes d t refl refl refl refl refl)
  build_as-Reported Event.close_event d t _ =
      returns (quiet-Reported j laws names ev _ _ d t refl refl refl refl refl)
  build_as-Reported (Event.dup_event info) d t _ =
      returns (quiet-Reported j laws names ev _ _ d t refl refl refl refl refl)
  build_as-Reported (Event.dup2_event info newfd) d t _ =
      returns (quiet-Reported j laws names ev _ _ d t refl refl refl refl refl)
  build_as-Reported (Event.dup3_event info newfd o_cloexec) d t _ =
      returns (quiet-Reported j laws names ev _ _ d t refl refl refl refl refl)
  build_as-Reported (Event.writev_event bytes iovec) d t h =
      Returns-bind (build_iovec-Total j iovec h)
        (λ _ _. returns (counted-Reported j laws names ev _ _ bytes d t refl refl refl refl refl))
  build_as-Reported (Event.readv_event bytes iovec) d t h =
      Returns-bind (build_iovec-Total j iovec h)
        (λ _ _. returns (counted-Reported j laws names ev _ _ bytes d t refl refl refl refl refl))
  build_as-Reported (Event.ioctl_event request) d t _ =
      returns (quiet-Reported j laws names ev _ _ d t refl refl refl refl refl)
  build_as-Reported (Event.sendfile_event bytes) d t _ =
      returns (counted-Reported j laws names ev _ _ bytes d t refl refl refl refl refl)
  build_as-Reported (Event.poll_event timeout requested returned) d t _ =
      returns (quiet-Reported j laws names ev _ _ d t refl refl refl refl refl)
  build_as-Reported (Event.ppoll_event timeout requested returned) d t _ =
      returns (quiet-Reported j laws names ev _ _ d t refl refl refl refl refl)
  build_as-Reported (Event.select_event timeout requested returned) d t _ =
      returns (quiet-Reported j laws names ev _ _ d t refl refl refl refl refl)
  build_as-Reported (Event.pselect_event timeout requested returned) d t _ =
      returns (quiet-Reported j laws names ev _ _ d t refl refl refl refl refl)
  build_as-Reported (Event.fcntl_event info cmd arg) d t _ =
      returns (quiet-Reported j laws names ev _ _ d t refl refl refl (ground arith) (ground arith))
  build_as-Reported (Event.epoll_ctl_event op requested) d t h =
      Returns-bind (op_name-Total op h)
        (λ _ _. returns (quiet-Reported j laws names ev _ _ d t refl refl refl refl refl))
  build_as-Reported (Event.epoll_wait_event timeout returned) d t _ =
      returns (quiet-Reported j laws names ev _ _ d t refl refl refl refl refl)
  build_as-Reported (Event.epoll_pwait_event timeout returned) d t _ =
      returns (quiet-Reported j laws names ev _ _ d t refl refl refl refl refl)
  build_as-Reported (Event.fdopen_event mode) d t _ =
      returns (quiet-Reported j laws names ev _ _ d t refl refl refl refl refl)
  build_as-Reported (Event.tcp_info_event i) d t _ =
      returns (tcp_info-Reported j laws names ev i d (sym t))

  -- The object of an event is built without a fault, where the event has the structure of its type and
  -- the blocks of memory that this structure points to are as long as what is read in them. A reader
  -- finds each of the shared fields in it once, with the event's value: the name of the type, the time,
  -- the result, the name of the error if and only if the call failed, the thread, and whether the event
  -- stands for no call; and in its details the bytes of the call and the measures of TCP, exactly where
  -- the event has them.
  pub build_sock_ev-Reported :
      kind ev.details ≡ ev.type
      → FitsDetails ev.details
      → Returns (Reported j names ev) (build_sock_ev j names ev)
  unfolding build_sock_ev
  build_sock_ev-Reported typed fits =
      subst (λ type. Returns (Reported j names ev) (build_as j names ev type ev.details)) typed
        (build_as-Reported ev.details refl typed fits)
