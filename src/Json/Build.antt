-- ===== src/Json/Build.antt =====
-- json_builder.c: the JSON object of an event, and its text.
use tcpsnitch.Base.{Option}
use tcpsnitch.Outcome.{Outcome, done, fault, out_of_bounds}
use tcpsnitch.Bytes.{Text}
use tcpsnitch.Event
use tcpsnitch.Event.{SockEventType, SockEvent, Details}
use tcpsnitch.Json.{Jansson, Names}
use tcpsnitch.Json.Memory.{◌>>=◌}
use tcpsnitch.Json.SocketEvents
use tcpsnitch.Json.IoEvents

module _ (j : Jansson) (names : Names) where
  -- The `switch` over the type, under which the event is read as the structure of that type; a
  -- structure of another type is read past its end.
  unfoldable pub build_as : SockEvent → SockEventType → Details → Outcome j.Object
  build_as ev Event.socket (Event.socket_event info) =
      done (SocketEvents.build_sock_ev_socket j names ev info)
  build_as ev Event.forked_socket (Event.forked_socket_event info) =
      done (SocketEvents.build_sock_ev_forked_socket j names ev info)
  build_as ev Event.ghost_socket (Event.ghost_socket_event info) =
      done (SocketEvents.build_sock_ev_ghost_socket j names ev info)
  build_as ev Event.bind (Event.bind_event addr) =
      done (SocketEvents.build_sock_ev_bind j names ev addr)
  build_as ev Event.connect (Event.connect_event addr) =
      done (SocketEvents.build_sock_ev_connect j names ev addr)
  build_as ev Event.shutdown (Event.shutdown_event rd wr) =
      done (SocketEvents.build_sock_ev_shutdown j names ev rd wr)
  build_as ev Event.listen (Event.listen_event backlog) =
      done (SocketEvents.build_sock_ev_listen j names ev backlog)
  build_as ev Event.accept (Event.accept_event info addr) =
      done (SocketEvents.build_sock_ev_accept j names ev info addr)
  build_as ev Event.accept4 (Event.accept4_event info addr flags) =
      done (SocketEvents.build_sock_ev_accept4 j names ev info addr flags)
  build_as ev Event.getsockopt (Event.getsockopt_event opt) =
      SocketEvents.build_sock_ev_getsockopt j names ev opt
  build_as ev Event.setsockopt (Event.setsockopt_event opt) =
      SocketEvents.build_sock_ev_setsockopt j names ev opt
  build_as ev Event.send (Event.send_event bytes flags) =
      done (SocketEvents.build_sock_ev_send j names ev bytes flags)
  build_as ev Event.recv (Event.recv_event bytes flags) =
      done (SocketEvents.build_sock_ev_recv j names ev bytes flags)
  build_as ev Event.sendto (Event.sendto_event bytes flags addr) =
      done (SocketEvents.build_sock_ev_sendto j names ev bytes flags addr)
  build_as ev Event.recvfrom (Event.recvfrom_event bytes flags addr) =
      done (SocketEvents.build_sock_ev_recvfrom j names ev bytes flags addr)
  build_as ev Event.sendmsg (Event.sendmsg_event bytes flags msg) =
      SocketEvents.build_sock_ev_sendmsg j names ev bytes flags msg
  build_as ev Event.recvmsg (Event.recvmsg_event bytes flags msg) =
      SocketEvents.build_sock_ev_recvmsg j names ev bytes flags msg
  build_as ev Event.sendmmsg (Event.sendmmsg_event bytes flags count vec) =
      SocketEvents.build_sock_ev_sendmmsg j names ev bytes flags count vec
  build_as ev Event.recvmmsg (Event.recvmmsg_event bytes flags timeout count vec) =
      SocketEvents.build_sock_ev_recvmmsg j names ev bytes flags timeout count vec
  build_as ev Event.getsockname (Event.getsockname_event addr) =
      done (SocketEvents.build_sock_ev_getsockname j names ev addr)
  build_as ev Event.getpeername (Event.getpeername_event addr) =
      done (SocketEvents.build_sock_ev_getpeername j names ev addr)
  build_as ev Event.sockatmark Event.sockatmark_event =
      done (SocketEvents.build_sock_ev_sockatmark j names ev)
  build_as ev Event.isfdtype (Event.isfdtype_event fdtype) =
      done (SocketEvents.build_sock_ev_isfdtype j names ev fdtype)
  build_as ev Event.write (Event.write_event bytes) =
      done (IoEvents.build_sock_ev_write j names ev bytes)
  build_as ev Event.read (Event.read_event bytes) =
      done (IoEvents.build_sock_ev_read j names ev bytes)
  build_as ev Event.close Event.close_event = done (IoEvents.build_sock_ev_close j names ev)
  build_as ev Event.dup (Event.dup_event info) = done (IoEvents.build_sock_ev_dup j names ev info)
  build_as ev Event.dup2 (Event.dup2_event info newfd) =
      done (IoEvents.build_sock_ev_dup2 j names ev info newfd)
  build_as ev Event.dup3 (Event.dup3_event info newfd o_cloexec) =
      done (IoEvents.build_sock_ev_dup3 j names ev info newfd o_cloexec)
  build_as ev Event.writev (Event.writev_event bytes iovec) =
      IoEvents.build_sock_ev_writev j names ev bytes iovec
  build_as ev Event.readv (Event.readv_event bytes iovec) =
      IoEvents.build_sock_ev_readv j names ev bytes iovec
  build_as ev Event.ioctl (Event.ioctl_event request) =
      done (IoEvents.build_sock_ev_ioctl j names ev request)
  build_as ev Event.sendfile (Event.sendfile_event bytes) =
      done (IoEvents.build_sock_ev_sendfile j names ev bytes)
  build_as ev Event.poll (Event.poll_event timeout requested returned) =
      done (IoEvents.build_sock_ev_poll j names ev timeout requested returned)
  build_as ev Event.ppoll (Event.ppoll_event timeout requested returned) =
      done (IoEvents.build_sock_ev_ppoll j names ev timeout requested returned)
  build_as ev Event.select (Event.select_event timeout requested returned) =
      done (IoEvents.build_sock_ev_select j names ev timeout requested returned)
  build_as ev Event.pselect (Event.pselect_event timeout requested returned) =
      done (IoEvents.build_sock_ev_pselect j names ev timeout requested returned)
  build_as ev Event.fcntl (Event.fcntl_event info cmd arg) =
      done (IoEvents.build_sock_ev_fcntl j names ev info cmd arg)
  build_as ev Event.epoll_ctl (Event.epoll_ctl_event op requested) =
      IoEvents.build_sock_ev_epoll_ctl j names ev op requested
  build_as ev Event.epoll_wait (Event.epoll_wait_event timeout returned) =
      done (IoEvents.build_sock_ev_epoll_wait j names ev timeout returned)
  build_as ev Event.epoll_pwait (Event.epoll_pwait_event timeout returned) =
      done (IoEvents.build_sock_ev_epoll_pwait j names ev timeout returned)
  build_as ev Event.fdopen (Event.fdopen_event mode) =
      done (IoEvents.build_sock_ev_fdopen j names ev mode)
  build_as ev Event.tcp_info (Event.tcp_info_event i) =
      done (IoEvents.build_sock_ev_tcp_info j names ev i)
  build_as ev _ _ = fault out_of_bounds

  unfoldable pub build_sock_ev : SockEvent → Outcome j.Object
  unfolding build_as
  build_sock_ev ev = build_as ev ev.type ev.details

  pub alloc_sock_ev_json : SockEvent → Outcome (Option Text)
  unfolding build_sock_ev
  alloc_sock_ev_json ev = do o ← build_sock_ev ev; done (j.json_dumps (j.object o))
