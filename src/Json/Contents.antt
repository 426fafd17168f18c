-- ===== src/Json/Contents.antt =====
-- What an event holds, as a reader of its JSON object would ask for it, and what the object is
-- built from without a fault (json_builder.c).
use tcpsnitch.Base.{ℕ, Bool, true, false, Option, none, some}
use tcpsnitch.Event
use tcpsnitch.Event.{SockEventType, SockEvent, Details, Sockopt, Iovec, Msghdr, Mmsghdr, TcpInfo}

-- Events that stand for no call of the program.
unfoldable pub is_fake : SockEventType → Bool
is_fake Event.forked_socket = true
is_fake Event.ghost_socket = true
is_fake Event.tcp_info = true
is_fake _ = false

-- The bytes that a call was to transmit.
unfoldable pub bytes_of : Details → Option ℕ
bytes_of (Event.send_event bytes _) = some bytes
bytes_of (Event.recv_event bytes _) = some bytes
bytes_of (Event.sendto_event bytes _ _) = some bytes
bytes_of (Event.recvfrom_event bytes _ _) = some bytes
bytes_of (Event.sendmsg_event bytes _ _) = some bytes
bytes_of (Event.recvmsg_event bytes _ _) = some bytes
bytes_of (Event.sendmmsg_event bytes _ _ _) = some bytes
bytes_of (Event.recvmmsg_event bytes _ _ _ _) = some bytes
bytes_of (Event.write_event bytes) = some bytes
bytes_of (Event.read_event bytes) = some bytes
bytes_of (Event.writev_event bytes _) = some bytes
bytes_of (Event.readv_event bytes _) = some bytes
bytes_of (Event.sendfile_event bytes) = some bytes
bytes_of _ = none

-- The measures of TCP.
unfoldable pub info_of : Details → Option TcpInfo
info_of (Event.tcp_info_event i) = some i
info_of _ = none
