-- ===== src/Spec/Calls.antt =====
-- The calls that sock_events.c has a hook for, and the hook of each.
use tcpsnitch.Base.{ℕ, ℤ, Bool, Option, List}
use tcpsnitch.Bytes.{Text}
use tcpsnitch.Event.{SelectEvents}
use tcpsnitch.Event.Fill.{MsghdrArg, MmsghdrArg}
use tcpsnitch.World.{M}
use tcpsnitch.Tracer.Handlers.{
  sock_ev_socket, sock_ev_bind, sock_ev_connect, sock_ev_shutdown, sock_ev_listen, sock_ev_accept,
  sock_ev_accept4, sock_ev_getsockopt, sock_ev_setsockopt, sock_ev_send, sock_ev_recv,
  sock_ev_sendto, sock_ev_recvfrom, sock_ev_sendmsg, sock_ev_recvmsg, sock_ev_sendmmsg,
  sock_ev_recvmmsg, sock_ev_getsockname, sock_ev_getpeername,
}
use tcpsnitch.Tracer.IoHandlers.{
  sock_ev_sockatmark, sock_ev_isfdtype, sock_ev_write, sock_ev_read, sock_ev_close, sock_ev_dup,
  sock_ev_dup2, sock_ev_dup3, sock_ev_writev, sock_ev_readv, sock_ev_ioctl, sock_ev_sendfile,
  sock_ev_poll, sock_ev_ppoll, sock_ev_select, sock_ev_pselect, sock_ev_fcntl, sock_ev_epoll_ctl,
  sock_ev_epoll_wait, sock_ev_epoll_pwait, sock_ev_fdopen,
}

-- A call of the program on the descriptor `fd`, with its results.
pub data Call : Type 0 where
  on_socket : (fd : ℕ) (domain type protocol : ℕ) → Call
  on_bind : (fd : ℕ) (ret err : ℤ) (addr : Text) (len : ℕ) → Call
  on_connect : (fd : ℕ) (ret err : ℤ) (addr : Text) (len : ℕ) → Call
  on_shutdown : (fd : ℕ) (ret err : ℤ) (how : ℤ) → Call
  on_listen : (fd : ℕ) (ret err : ℤ) (backlog : ℤ) → Call
  on_accept : (fd : ℕ) (ret err : ℤ) (addr : Option Text) (len : ℕ) → Call
  on_accept4 : (fd : ℕ) (ret err : ℤ) (addr : Option Text) (len flags : ℕ) → Call
  on_getsockopt : (fd : ℕ) (ret err : ℤ) (level optname : ℕ) (optval : Text) (optlen : ℕ) → Call
  on_setsockopt : (fd : ℕ) (ret err : ℤ) (level optname : ℕ) (optval : Text) (optlen : ℕ) → Call
  on_send : (fd : ℕ) (ret err : ℤ) (bytes flags : ℕ) → Call
  on_recv : (fd : ℕ) (ret err : ℤ) (bytes flags : ℕ) → Call
  on_sendto : (fd : ℕ) (ret err : ℤ) (bytes flags : ℕ) (addr : Option Text) (len : ℕ) → Call
  on_recvfrom : (fd : ℕ) (ret err : ℤ) (bytes flags : ℕ) (addr : Option Text) (len : ℕ) → Call
  on_sendmsg : (fd : ℕ) (ret err : ℤ) (msg : MsghdrArg) (flags : ℕ) → Call
  on_recvmsg : (fd : ℕ) (ret err : ℤ) (msg : MsghdrArg) (flags : ℕ) → Call
  on_sendmmsg : (fd : ℕ) (ret err : ℤ) (vec : List MmsghdrArg) (vlen flags : ℕ) → Call
  on_recvmmsg :
      (fd : ℕ) (ret err : ℤ) (vec : List MmsghdrArg) (vlen flags : ℕ) (tmo : Option (ℤ × ℤ)) → Call
  on_getsockname : (fd : ℕ) (ret err : ℤ) (addr : Text) (len : ℕ) → Call
  on_getpeername : (fd : ℕ) (ret err : ℤ) (addr : Text) (len : ℕ) → Call
  on_sockatmark : (fd : ℕ) (ret err : ℤ) → Call
  on_isfdtype : (fd : ℕ) (ret err : ℤ) (fdtype : ℤ) → Call
  on_write : (fd : ℕ) (ret err : ℤ) (bytes : ℕ) → Call
  on_read : (fd : ℕ) (ret err : ℤ) (bytes : ℕ) → Call
  on_close : (fd : ℕ) (ret err : ℤ) → Call
  on_dup : (fd : ℕ) (ret err : ℤ) → Call
  on_dup2 : (fd : ℕ) (ret err : ℤ) (newfd : ℤ) → Call
  on_dup3 : (fd : ℕ) (ret err : ℤ) (newfd : ℤ) (flags : ℕ) → Call
  on_writev : (fd : ℕ) (ret err : ℤ) (vec : List ℕ) (n : ℤ) → Call
  on_readv : (fd : ℕ) (ret err : ℤ) (vec : List ℕ) (n : ℤ) → Call
  on_ioctl : (fd : ℕ) (ret err : ℤ) (request : ℕ) → Call
  on_sendfile : (fd : ℕ) (ret err : ℤ) (bytes : ℕ) → Call
  on_poll : (fd : ℕ) (ret err : ℤ) (requested returned : ℕ) (timeout : ℤ) → Call
  on_ppoll : (fd : ℕ) (ret err : ℤ) (requested returned : ℕ) (timeout : Option (ℤ × ℤ)) → Call
  on_select :
      (fd : ℕ) (ret err : ℤ) (requested returned : SelectEvents) (timeout : Option (ℤ × ℤ)) → Call
  on_pselect :
      (fd : ℕ) (ret err : ℤ) (requested returned : SelectEvents) (timeout : Option (ℤ × ℤ)) → Call
  on_fcntl : (fd : ℕ) (ret err : ℤ) (cmd : ℕ) (arg : ℤ) → Call
  on_epoll_ctl : (fd : ℕ) (ret err : ℤ) (op : ℤ) (requested : ℕ) → Call
  on_epoll_wait : (fd : ℕ) (ret err : ℤ) (timeout : ℤ) (returned : ℕ) → Call
  on_epoll_pwait : (fd : ℕ) (ret err : ℤ) (timeout : ℤ) (returned : ℕ) → Call
  on_fdopen : (fd : ℕ) (stream : Bool) (err : ℤ) (mode : Text) → Call

-- The hook that the library runs for a call.
abbrev pub run : Call → M (Unit {0})
run (on_socket fd domain type protocol) = sock_ev_socket fd domain type protocol
run (on_bind fd ret err addr len) = sock_ev_bind fd ret err addr len
run (on_connect fd ret err addr len) = sock_ev_connect fd ret err addr len
run (on_shutdown fd ret err how) = sock_ev_shutdown fd ret err how
run (on_listen fd ret err backlog) = sock_ev_listen fd ret err backlog
run (on_accept fd ret err addr len) = sock_ev_accept fd ret err addr len
run (on_accept4 fd ret err addr len flags) = sock_ev_accept4 fd ret err addr len flags
run (on_getsockopt fd ret err level optname optval optlen) =
    sock_ev_getsockopt fd ret err level optname optval optlen
run (on_setsockopt fd ret err level optname optval optlen) =
    sock_ev_setsockopt fd ret err level optname optval optlen
run (on_send fd ret err bytes flags) = sock_ev_send fd ret err bytes flags
run (on_recv fd ret err bytes flags) = sock_ev_recv fd ret err bytes flags
run (on_sendto fd ret err bytes flags addr len) = sock_ev_sendto fd ret err bytes flags addr len
run (on_recvfrom fd ret err bytes flags addr len) = sock_ev_recvfrom fd ret err bytes flags addr len
run (on_sendmsg fd ret err msg flags) = sock_ev_sendmsg fd ret err msg flags
run (on_recvmsg fd ret err msg flags) = sock_ev_recvmsg fd ret err msg flags
run (on_sendmmsg fd ret err vec vlen flags) = sock_ev_sendmmsg fd ret err vec vlen flags
run (on_recvmmsg fd ret err vec vlen flags tmo) = sock_ev_recvmmsg fd ret err vec vlen flags tmo
run (on_getsockname fd ret err addr len) = sock_ev_getsockname fd ret err addr len
run (on_getpeername fd ret err addr len) = sock_ev_getpeername fd ret err addr len
run (on_sockatmark fd ret err) = sock_ev_sockatmark fd ret err
run (on_isfdtype fd ret err fdtype) = sock_ev_isfdtype fd ret err fdtype
run (on_write fd ret err bytes) = sock_ev_write fd ret err bytes
run (on_read fd ret err bytes) = sock_ev_read fd ret err bytes
run (on_close fd ret err) = sock_ev_close fd ret err
run (on_dup fd ret err) = sock_ev_dup fd ret err
run (on_dup2 fd ret err newfd) = sock_ev_dup2 fd ret err newfd
run (on_dup3 fd ret err newfd flags) = sock_ev_dup3 fd ret err newfd flags
run (on_writev fd ret err vec n) = sock_ev_writev fd ret err vec n
run (on_readv fd ret err vec n) = sock_ev_readv fd ret err vec n
run (on_ioctl fd ret err request) = sock_ev_ioctl fd ret err request
run (on_sendfile fd ret err bytes) = sock_ev_sendfile fd ret err bytes
run (on_poll fd ret err requested returned timeout) =
    sock_ev_poll fd ret err requested returned timeout
run (on_ppoll fd ret err requested returned timeout) =
    sock_ev_ppoll fd ret err requested returned timeout
run (on_select fd ret err requested returned timeout) =
    sock_ev_select fd ret err requested returned timeout
run (on_pselect fd ret err requested returned timeout) =
    sock_ev_pselect fd ret err requested returned timeout
run (on_fcntl fd ret err cmd arg) = sock_ev_fcntl fd ret err cmd arg
run (on_epoll_ctl fd ret err op requested) = sock_ev_epoll_ctl fd ret err op requested
run (on_epoll_wait fd ret err timeout returned) = sock_ev_epoll_wait fd ret err timeout returned
run (on_epoll_pwait fd ret err timeout returned) = sock_ev_epoll_pwait fd ret err timeout returned
run (on_fdopen fd stream err mode) = sock_ev_fdopen fd stream err mode
