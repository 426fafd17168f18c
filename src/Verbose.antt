-- ===== src/Verbose.antt =====
-- verbose_mode.c: the line that is shown for an event.
pub mod Lines
use tcpsnitch.Base.{ℕ, ◌+◌, ◌<◌, ◌≤◌, ◌≡◌, ℤ, List, [], ◌∷◌, ◌++◌, String}
use tcpsnitch.Bytes.{Text}
use tcpsnitch.Text.{codes, decimal, print_int, snprintf}
use tcpsnitch.Event
use tcpsnitch.Event.{SockEventType, SockEvent}

-- BUF_SIZE
abbrev buf_size : ℕ
buf_size = 512

-- OUTPUT_EV: two buffers, one inside the other.
unfoldable pub output_ev : ℕ → Text → Text
unfolding snprintf
output_ev pid ev =
    snprintf buf_size
      (codes "[pid " ++ decimal pid ++ codes "] " ++ snprintf buf_size ev ++ b'\n' ∷ [])

-- What each of the functions for a type puts before the result of the call.
unfoldable pub label : SockEventType → String
label Event.socket = "socket()="
label Event.forked_socket = "forked_socket()="
label Event.ghost_socket = "ghost_socket()="
label Event.bind = "bind()="
label Event.connect = "connect()="
label Event.shutdown = "shutdown()="
label Event.listen = "listen()="
label Event.accept = "accept()="
label Event.accept4 = "accept4()="
label Event.getsockopt = "getsockopt()="
label Event.setsockopt = "setsockopt()="
label Event.send = "send()="
label Event.recv = "recv()="
label Event.sendto = "sendto()="
label Event.recvfrom = "recvfrom()="
label Event.sendmsg = "sendmsg()="
label Event.recvmsg = "recvmsg()="
label Event.sendmmsg = "sendmmsg()="
label Event.recvmmsg = "recvmmsg()="
label Event.getsockname = "getsockname()="
label Event.getpeername = "getpeername()="
label Event.sockatmark = "sockatmark()="
label Event.isfdtype = "isfdtype()="
label Event.write = "write()="
label Event.read = "read()="
label Event.close = "close()="
label Event.dup = "dup()="
label Event.dup2 = "dup2()="
label Event.dup3 = "dup3()="
label Event.writev = "writev()="
label Event.readv = "readv()="
label Event.ioctl = "iotctl()="
label Event.sendfile = "sendfile()="
label Event.poll = "poll()="
label Event.ppoll = "ppoll()="
label Event.select = "select()="
label Event.pselect = "pselect()="
label Event.fcntl = "fcntl="
label Event.epoll_ctl = "epoll_ctl="
label Event.epoll_wait = "epoll_wait="
label Event.epoll_pwait = "epoll_pwait="
label Event.fdopen = "fdopen()="
label Event.tcp_info = "tcp_info="

-- The switch of `output_event`, with the function that it calls.
unfoldable pub event_line : ℕ → SockEvent → Text
unfolding output_ev label
event_line pid ev = output_ev pid (codes (label ev.type) ++ print_int ev.return_value)
