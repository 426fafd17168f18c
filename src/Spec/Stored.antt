-- ===== src/Spec/Stored.antt =====
-- What is stored in an event by sock_events.c is whole.
use tcpsnitch.Base.{
  ℕ, inl, inr, ℤ, pos, Bool-cases, zero, suc, negsuc, [], ◌∷◌, ◌≤◌, arith, length, length-take_le,
  to_int, length-append, List, take, drop, replicate, ltb, ◌%◌, ◌^◌, ◌-◌, negate,
}
use tcpsnitch.Bytes.{Text}
use tcpsnitch.Event
use tcpsnitch.Event.{SockEventType, SockInfo, SockEvent, Socket, Details, Addr}
use tcpsnitch.Event.Kinds.{kind}
use tcpsnitch.Event.Whole.{
  IsWhole, FitsIovec, FitsMsghdr, FitsMessages, no_messages, and_message, rounds,
}
use tcpsnitch.Event.Fill.{MsghdrArg, MmsghdrArg}
use tcpsnitch.Event.Fill.Laws.{FitsVec, FitsMsg, AllFit, entries, stored_msg, stored_vec, copied}
use tcpsnitch.Tracer.{set_sock_info}

-- The information of a socket is put into the structure that is there.
pub set_sock_info-IsWhole :
    {type : SockEventType} (info : SockInfo) (d : Details)
    → IsWhole type d
    → IsWhole type (set_sock_info info d)
unfolding set_sock_info kind
set_sock_info-IsWhole info (Event.socket_event _) h = h
set_sock_info-IsWhole info (Event.forked_socket_event _) h = h
set_sock_info-IsWhole info (Event.ghost_socket_event _) h = h
set_sock_info-IsWhole info (Event.bind_event _) h = h
set_sock_info-IsWhole info (Event.connect_event _) h = h
set_sock_info-IsWhole info (Event.shutdown_event _ _) h = h
set_sock_info-IsWhole info (Event.listen_event _) h = h
set_sock_info-IsWhole info (Event.accept_event _ _) h = h
set_sock_info-IsWhole info (Event.accept4_event _ _ _) h = h
set_sock_info-IsWhole info (Event.getsockopt_event _) h = h
set_sock_info-IsWhole info (Event.setsockopt_event _) h = h
set_sock_info-IsWhole info (Event.send_event _ _) h = h
set_sock_info-IsWhole info (Event.recv_event _ _) h = h
set_sock_info-IsWhole info (Event.sendto_event _ _ _) h = h
set_sock_info-IsWhole info (Event.recvfrom_event _ _ _) h = h
set_sock_info-IsWhole info (Event.sendmsg_event _ _ _) h = h
set_sock_info-IsWhole info (Event.recvmsg_event _ _ _) h = h
set_sock_info-IsWhole info (Event.sendmmsg_event _ _ _ _) h = h
set_sock_info-IsWhole info (Event.recvmmsg_event _ _ _ _ _) h = h
set_sock_info-IsWhole info (Event.getsockname_event _) h = h
set_sock_info-IsWhole info (Event.getpeername_event _) h = h
set_sock_info-IsWhole info Event.sockatmark_event h = h
set_sock_info-IsWhole info (Event.isfdtype_event _) h = h
set_sock_info-IsWhole info (Event.write_event _) h = h
set_sock_info-IsWhole info (Event.read_event _) h = h
set_sock_info-IsWhole info Event.close_event h = h
set_sock_info-IsWhole info (Event.dup_event _) h = h
set_sock_info-IsWhole info (Event.dup2_event _ _) h = h
set_sock_info-IsWhole info (Event.dup3_event _ _ _) h = h
set_sock_info-IsWhole info (Event.writev_event _ _) h = h
set_sock_info-IsWhole info (Event.readv_event _ _) h = h
set_sock_info-IsWhole info (Event.ioctl_event _) h = h
set_sock_info-IsWhole info (Event.sendfile_event _) h = h
set_sock_info-IsWhole info (Event.poll_event _ _ _) h = h
set_sock_info-IsWhole info (Event.ppoll_event _ _ _) h = h
set_sock_info-IsWhole info (Event.select_event _ _ _) h = h
set_sock_info-IsWhole info (Event.pselect_event _ _ _) h = h
set_sock_info-IsWhole info (Event.fcntl_event _ _ _) h = h
set_sock_info-IsWhole info (Event.epoll_ctl_event _ _) h = h
set_sock_info-IsWhole info (Event.epoll_wait_event _ _) h = h
set_sock_info-IsWhole info (Event.epoll_pwait_event _ _) h = h
set_sock_info-IsWhole info (Event.fdopen_event _) h = h
set_sock_info-IsWhole info (Event.tcp_info_event _) h = h

pub entries-Fits :
    (vec : List ℕ) (n : ℤ)
    → FitsVec vec n
    → FitsIovec (record { iovec_count = n; iovec_sizes = entries vec n })
entries-Fits vec (pos n) h = omega (arith, length-take_le n vec h)
entries-Fits vec (negsuc n) h = omega arith

copied-length : (block : Text) (n : ℕ) → n ≤ length block → n ≤ length (copied block n)
copied-length block n h =
    omega (arith, length-append (take n block) (drop n (replicate n 0)), length-take_le n block h)

pub stored_msg-Fits : (m : MsghdrArg) → FitsMsg m → FitsMsghdr (stored_msg m)
stored_msg-Fits m f =
    (entries-Fits m.iov m.iovlen f.vec, copied-length m.control m.controllen f.control)

pub stored_vec-Fits :
    (vec : List MmsghdrArg) (n m : ℕ) → m ≤ n → AllFit vec n → FitsMessages m (stored_vec vec n)
stored_vec-Fits vec n zero h f = no_messages
stored_vec-Fits vec zero (suc m) h f = absurd (omega arith)
stored_vec-Fits [] (suc n) (suc m) h f = absurd f
stored_vec-Fits (v ∷ vec) (suc n) (suc m) h (f, fs) =
    and_message (stored_msg-Fits v.msg_hdr f) (stored_vec-Fits vec n m (omega arith) fs)

rounds-negate : (m n : ℕ) → rounds (negate m) ≤ n
rounds-negate zero n = omega arith
rounds-negate (suc m) n = ground arith

pub rounds-to_int_le : (n : ℕ) → rounds (to_int n) ≤ n
unfolding to_int
rounds-to_int_le n = elim (Bool-cases (ltb (n % 2 ^ 32) (2 ^ 31))) [
  | inl e ↦ rw e (omega arith)
  | inr e ↦ rw e (rounds-negate (2 ^ 32 - n % 2 ^ 32) n)
]
