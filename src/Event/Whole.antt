-- ===== src/Event/Whole.antt =====
-- How long the blocks of memory of an event (sock_events.h) have to be, by what its type has a reader
-- look for in them.
use tcpsnitch.Base.{
  ℕ, suc, ◌≤◌, ◌≡◌, ◌⊎◌, ℤ, pos, negsuc, List, ◌∷◌, ◌==◌, ◌||◌, if◌then◌else◌, length, to_int,
}
use tcpsnitch.Event
use tcpsnitch.Event.Kinds.{kind}
use tcpsnitch.Event.{SockEventType, Details, Sockopt, Iovec, Msghdr, Mmsghdr}

-- How often a loop up to an `int` is run.
abbrev pub rounds : ℤ → ℕ
rounds (pos n) = n
rounds (negsuc n) = 0

-- The bytes that an option's value has to have, by its name: a `struct timeval` of 16, a
-- `struct linger` of 8, an `int` of 4, a `struct ip_mreqn` of 12 or without its last field, a
-- `struct in_addr` of 4, an `unsigned char`, a `struct ipv6_mreq` of 20.
abbrev pub socket_size : (optname : ℕ) → ℕ
socket_size name =
    if name == 20 || name == 21
    then 16
    else if name == 13
    then 8
    else if name == 8 || (name == 7 || name == 4)
    then 4
    else if name == 9 || (name == 1 || (name == 2 || name == 6))
    then 4
    else 0

abbrev pub tcp_size : (optname : ℕ) → ℕ
tcp_size name = if name == 5 || name == 4 then 4 else if name == 1 then 4 else 0

abbrev pub mreqn_size : (optlen : ℕ) → ℕ
mreqn_size optlen = if optlen == 12 then 12 else 8

abbrev pub ip_size : Sockopt → ℕ
ip_size o =
    if o.optname == 35 || o.optname == 36
    then mreqn_size o.optlen
    else if o.optname == 32
    then if o.getsockopt || o.optlen == 4 then 4 else mreqn_size o.optlen
    else if o.optname == 33
    then 1
    else if o.optname == 34
    then 4
    else 0

abbrev pub ipv6_size : (optname : ℕ) → ℕ
ipv6_size name =
    if name == 20 || name == 21
    then 20
    else if name == 18
    then 4
    else if name == 17
    then 4
    else if name == 26 || name == 19
    then 4
    else 0

abbrev pub value_size : Sockopt → ℕ
value_size o =
    if o.level == 1
    then socket_size o.optname
    else if o.level == 6
    then tcp_size o.optname
    else if o.level == 0
    then ip_size o
    else if o.level == 41
    then ipv6_size o.optname
    else 0

abbrev pub FitsOption : Sockopt → Type 0
FitsOption o = (if o.optlen == 0 then 0 else value_size o) ≤ length o.optval

abbrev pub FitsIovec : Iovec → Type 0
FitsIovec v = rounds v.iovec_count ≤ length v.iovec_sizes

-- The control data have the length that the message tells.
abbrev pub FitsMsghdr : Msghdr → Type 0
FitsMsghdr m = FitsIovec m.iovec × (m.controllen ≤ length m.control)

pub data FitsMessages : (n : ℕ) → List Mmsghdr → Type 0 where
  no_messages : {vec : List Mmsghdr} → FitsMessages 0 vec
  and_message :
      {n : ℕ} {m : Mmsghdr} {vec : List Mmsghdr}
      → FitsMsghdr m.msghdr
      → FitsMessages n vec
      → FitsMessages (suc n) (m ∷ vec)

-- The parts of an event that are read through a pointer are there.
abbrev pub FitsDetails : Details → Type 0
FitsDetails (Event.getsockopt_event o) = FitsOption o
FitsDetails (Event.setsockopt_event o) = FitsOption o
FitsDetails (Event.sendmsg_event _ _ m) = FitsMsghdr m
FitsDetails (Event.recvmsg_event _ _ m) = FitsMsghdr m
FitsDetails (Event.sendmmsg_event _ _ count vec) = FitsMessages (rounds (to_int count)) vec
FitsDetails (Event.recvmmsg_event _ _ _ count vec) = FitsMessages (rounds (to_int count)) vec
FitsDetails (Event.writev_event _ v) = FitsIovec v
FitsDetails (Event.readv_event _ v) = FitsIovec v
FitsDetails (Event.epoll_ctl_event op _) = (op ≡ pos 1) ⊎ ((op ≡ pos 2) ⊎ (op ≡ pos 3))
FitsDetails _ = Unit {0}

-- The details of an event of a type: the structure of this type, and what it points to.
abbrev pub IsWhole : SockEventType → Details → Type 0
IsWhole type d = (kind d ≡ type) × FitsDetails d
