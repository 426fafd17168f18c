-- ===== src/Event/Kinds.antt =====
-- The type of the events that a structure is for (sock_events.h).
use tcpsnitch.Event
use tcpsnitch.Event.{
  SockEventType, Details, socket_event, forked_socket_event, ghost_socket_event, bind_event,
  connect_event, shutdown_event, listen_event, accept_event, accept4_event, getsockopt_event,
  setsockopt_event, send_event, recv_event, sendto_event, recvfrom_event, sendmsg_event,
  recvmsg_event, sendmmsg_event, recvmmsg_event, getsockname_event, getpeername_event,
  sockatmark_event, isfdtype_event, write_event, read_event, close_event, dup_event, dup2_event,
  dup3_event, writev_event, readv_event, ioctl_event, sendfile_event, poll_event, ppoll_event,
  select_event, pselect_event, fcntl_event, epoll_ctl_event, epoll_wait_event, epoll_pwait_event,
  fdopen_event, tcp_info_event,
}

unfoldable pub kind : Details → SockEventType
kind (socket_event _) = Event.socket
kind (forked_socket_event _) = Event.forked_socket
kind (ghost_socket_event _) = Event.ghost_socket
kind (bind_event _) = Event.bind
kind (connect_event _) = Event.connect
kind (shutdown_event _ _) = Event.shutdown
kind (listen_event _) = Event.listen
kind (accept_event _ _) = Event.accept
kind (accept4_event _ _ _) = Event.accept4
kind (getsockopt_event _) = Event.getsockopt
kind (setsockopt_event _) = Event.setsockopt
kind (send_event _ _) = Event.send
kind (recv_event _ _) = Event.recv
kind (sendto_event _ _ _) = Event.sendto
kind (recvfrom_event _ _ _) = Event.recvfrom
kind (sendmsg_event _ _ _) = Event.sendmsg
kind (recvmsg_event _ _ _) = Event.recvmsg
kind (sendmmsg_event _ _ _ _) = Event.sendmmsg
kind (recvmmsg_event _ _ _ _ _) = Event.recvmmsg
kind (getsockname_event _) = Event.getsockname
kind (getpeername_event _) = Event.getpeername
kind sockatmark_event = Event.sockatmark
kind (isfdtype_event _) = Event.isfdtype
kind (write_event _) = Event.write
kind (read_event _) = Event.read
kind close_event = Event.close
kind (dup_event _) = Event.dup
kind (dup2_event _ _) = Event.dup2
kind (dup3_event _ _ _) = Event.dup3
kind (writev_event _ _) = Event.writev
kind (readv_event _ _) = Event.readv
kind (ioctl_event _) = Event.ioctl
kind (sendfile_event _) = Event.sendfile
kind (poll_event _ _ _) = Event.poll
kind (ppoll_event _ _ _) = Event.ppoll
kind (select_event _ _ _) = Event.select
kind (pselect_event _ _ _) = Event.pselect
kind (fcntl_event _ _ _) = Event.fcntl
kind (epoll_ctl_event _ _) = Event.epoll_ctl
kind (epoll_wait_event _ _) = Event.epoll_wait
kind (epoll_pwait_event _ _) = Event.epoll_pwait
kind (fdopen_event _) = Event.fdopen
kind (tcp_info_event _) = Event.tcp_info
