-- ===== src/Event.antt =====
-- Events and what they record (sock_events.h). A C enum or bit set is its number, an `int` that
-- can be negative an integer; a buffer is its bytes.
pub mod Nodes
pub mod Fill
pub mod Kinds
pub mod Whole
use tcpsnitch.Base.{ℕ, ℤ, Bool, false, Option, List, replicate}
use tcpsnitch.Bytes.{Text}

pub data SockEventType : Type 0 where
  socket forked_socket ghost_socket bind connect shutdown listen accept accept4 getsockopt
        setsockopt send recv sendto recvfrom sendmsg recvmsg sendmmsg recvmmsg getsockname
        getpeername sockatmark isfdtype write read close dup dup2 dup3 writev readv ioctl sendfile
        poll ppoll select pselect fcntl epoll_ctl epoll_wait epoll_pwait fdopen tcp_info :
      SockEventType

pub record SockInfo : Type 0 where
  pub domain : ℕ
  pub type : ℕ
  pub protocol : ℕ
  pub sock_cloexec : Bool
  pub sock_nonblock : Bool
  pub filled : Bool

pub record Addr : Type 0 where
  pub sockaddr_sto : Text
  pub len : ℕ

pub record Sockopt : Type 0 where
  pub level : ℕ
  pub optname : ℕ
  pub optval : Text
  pub optlen : ℕ
  pub getsockopt : Bool
  pub fd : ℕ

pub record Iovec : Type 0 where
  pub iovec_count : ℤ
  pub iovec_sizes : List ℕ

-- `control` and `controllen` are the two fields that are filled of the `struct msghdr` copy.
pub record Msghdr : Type 0 where
  pub iovec : Iovec
  pub addr : Text
  pub flags : ℕ
  pub control : Text
  pub controllen : ℕ

pub record Timeout : Type 0 where
  pub seconds : ℤ
  pub nanoseconds : ℤ

pub record Mmsghdr : Type 0 where
  pub msghdr : Msghdr
  pub bytes_transmitted : ℕ

pub record PollEvents : Type 0 where
  pub pollin : Bool
  pub pollpri : Bool
  pub pollout : Bool
  pub pollrdhup : Bool
  pub pollerr : Bool
  pub pollhup : Bool
  pub pollnval : Bool

pub record SelectEvents : Type 0 where
  pub read : Bool
  pub write : Bool
  pub except : Bool

-- `struct tcp_info` of the C library, in the order of its fields.
pub record TcpInfo : Type 0 where
  pub state : ℕ
  pub ca_state : ℕ
  pub retransmits : ℕ
  pub probes : ℕ
  pub backoff : ℕ
  pub options : ℕ
  pub snd_wscale : ℕ
  pub rcv_wscale : ℕ
  pub rto : ℕ
  pub ato : ℕ
  pub snd_mss : ℕ
  pub rcv_mss : ℕ
  pub unacked : ℕ
  pub sacked : ℕ
  pub lost : ℕ
  pub retrans : ℕ
  pub fackets : ℕ
  pub last_data_sent : ℕ
  pub last_ack_sent : ℕ
  pub last_data_recv : ℕ
  pub last_ack_recv : ℕ
  pub pmtu : ℕ
  pub rcv_ssthresh : ℕ
  pub rtt : ℕ
  pub rttvar : ℕ
  pub snd_ssthresh : ℕ
  pub snd_cwnd : ℕ
  pub advmss : ℕ
  pub reordering : ℕ
  pub rcv_rtt : ℕ
  pub rcv_space : ℕ
  pub total_retrans : ℕ

-- What each `SockEv...` structure adds to its header.
pub data Details : Type 0 where
  socket_event forked_socket_event ghost_socket_event dup_event : SockInfo → Details
  bind_event connect_event getsockname_event getpeername_event : Addr → Details
  shutdown_event : (shut_rd shut_wr : Bool) → Details
  listen_event : (backlog : ℤ) → Details
  accept_event : SockInfo → Addr → Details
  accept4_event : SockInfo → Addr → (flags : ℕ) → Details
  getsockopt_event setsockopt_event : Sockopt → Details
  send_event recv_event : (bytes flags : ℕ) → Details
  sendto_event recvfrom_event : (bytes flags : ℕ) → Addr → Details
  sendmsg_event recvmsg_event : (bytes flags : ℕ) → Msghdr → Details
  sendmmsg_event : (bytes flags mmsghdr_count : ℕ) → List Mmsghdr → Details
  recvmmsg_event : (bytes flags : ℕ) → Timeout → (mmsghdr_count : ℕ) → List Mmsghdr → Details
  sockatmark_event close_event : Details
  isfdtype_event : (fdtype : ℤ) → Details
  write_event read_event sendfile_event : (bytes : ℕ) → Details
  dup2_event : SockInfo → (newfd : ℤ) → Details
  dup3_event : SockInfo → (newfd : ℤ) → (o_cloexec : Bool) → Details
  writev_event readv_event : (bytes : ℕ) → Iovec → Details
  ioctl_event : (request : ℕ) → Details
  poll_event ppoll_event : Timeout → (requested_events returned_events : PollEvents) → Details
  select_event pselect_event : Timeout → (requested_events returned_events : SelectEvents) → Details
  fcntl_event : SockInfo → (cmd : ℕ) → (arg : ℤ) → Details
  epoll_ctl_event : (op : ℤ) → (requested_events : ℕ) → Details
  epoll_wait_event epoll_pwait_event : (timeout : ℤ) → (returned_events : ℕ) → Details
  fdopen_event : (mode : Text) → Details
  tcp_info_event : TcpInfo → Details

-- The header `SockEvent` with what the event's own structure adds.
pub record SockEvent : Type 0 where
  pub type : SockEventType
  pub timestamp_usec : ℕ
  pub return_value : ℤ
  pub success : Bool
  pub err : ℤ
  pub id : ℕ
  pub thread_id : ℕ
  pub details : Details

-- The list `head ... tail` is the list of its events. A switch flag of a packet capture is known
-- by its number.
pub record Socket : Type 0 where
  pub events : List SockEvent
  pub id : ℕ
  pub fd : ℕ
  pub sock_info : SockInfo
  pub events_count : ℕ
  pub bytes_sent : ℕ
  pub bytes_received : ℕ
  pub last_info_dump_micros : ℤ
  pub last_info_dump_bytes : ℤ
  pub bound : Bool
  pub bound_addr : Text
  pub rtt : ℤ
  pub capture_switch : Option ℕ

-- `sizeof(struct sockaddr_storage)`
abbrev pub sockaddr_storage_size : ℕ
sockaddr_storage_size = 128

-- What `calloc` leaves in the structures.
unfoldable pub zero_storage : Text
zero_storage = replicate sockaddr_storage_size 0

abbrev pub blank_info : SockInfo
blank_info = record {
  domain = 0;
  type = 0;
  protocol = 0;
  sock_cloexec = false;
  sock_nonblock = false;
  filled = false;
}

abbrev pub blank_addr : Addr
blank_addr = record { sockaddr_sto = zero_storage; len = 0 }
