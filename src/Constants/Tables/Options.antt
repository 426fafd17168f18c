-- ===== src/Constants/Tables/Options.antt =====
-- The names of the other constants that constants/ has arrays for.
use tcpsnitch.Base.{List, [], ◌∷◌, String}

abbrev pub fcntl_cmds : List String
fcntl_cmds =
    "F_GETFD" ∷ "F_GETFL" ∷ "F_GETOWN" ∷ "F_GETSIG" ∷ "F_GETLEASE" ∷ "F_GETPIPE_SZ" ∷ "F_DUPFD"
    ∷ "F_DUPFD_CLOEXEC" ∷ "F_SETFD" ∷ "F_SETFL" ∷ "F_SETOWN" ∷ "F_SETSIG" ∷ "F_SETLEASE"
    ∷ "F_NOTIFY" ∷ "F_SETPIPE_SZ" ∷ "F_SETLK" ∷ "F_SETLKW" ∷ "F_GETLK" ∷ "F_GETLK64" ∷ "F_SETLK64"
    ∷ "F_SETLKW64" ∷ "F_OFD_SETLK" ∷ "F_OFD_SETLKW" ∷ "F_OFD_GETLK" ∷ "F_GETOWN_EX" ∷ "F_SETOWN_EX"
    ∷ []

abbrev pub socket_domains : List String
socket_domains = "AF_UNIX" ∷ "AF_INET" ∷ "AF_INET6" ∷ "AF_IPX" ∷ "AF_NETLINK" ∷ "AF_PACKET" ∷ []

abbrev pub socket_types : List String
socket_types =
    "SOCK_STREAM" ∷ "SOCK_DGRAM" ∷ "SOCK_SEQPACKET" ∷ "SOCK_RAW" ∷ "SOCK_RDM" ∷ "SOCK_PACKET" ∷ []

abbrev pub sockopt_levels : List String
sockopt_levels =
    "SOL_SOCKET" ∷ "SOL_TCP" ∷ "SOL_UDP" ∷ "SOL_IP" ∷ "SOL_IPV6" ∷ "SOL_ICMPV6" ∷ "SOL_RAW"
    ∷ "SOL_DECNET" ∷ "SOL_X25" ∷ "SOL_PACKET" ∷ "SOL_ATM" ∷ "SOL_AAL" ∷ "SOL_IRDA" ∷ "SOL_ATALK"
    ∷ "SOL_ROSE" ∷ "SOL_NETROM" ∷ "SOL_AX25" ∷ "SOL_IPX" ∷ "SOL_TIPC" ∷ "SOL_CAN_BASE"
    ∷ "SOL_CAN_RAW" ∷ "SOL_IRLMP" ∷ "SOL_IRTTP" ∷ "SOL_RDS" ∷ []

abbrev pub sol_socket_options : List String
sol_socket_options =
    "SO_DEBUG" ∷ "SO_REUSEADDR" ∷ "SO_TYPE" ∷ "SO_ERROR" ∷ "SO_DONTROUTE" ∷ "SO_BROADCAST"
    ∷ "SO_SNDBUF" ∷ "SO_RCVBUF" ∷ "SO_SNDBUFFORCE" ∷ "SO_RCVBUFFORCE" ∷ "SO_KEEPALIVE"
    ∷ "SO_OOBINLINE" ∷ "SO_NO_CHECK" ∷ "SO_PRIORITY" ∷ "SO_LINGER" ∷ "SO_BSDCOMPAT" ∷ "SO_REUSEPORT"
    ∷ "SO_PASSCRED" ∷ "SO_PASSCRED" ∷ "SO_PEERCRED" ∷ "SO_RCVLOWAT" ∷ "SO_SNDLOWAT" ∷ "SO_RCVTIMEO"
    ∷ "SO_SNDTIMEO" ∷ "SO_SECURITY_AUTHENTICATION" ∷ "SO_SECURITY_ENCRYPTION_TRANSPORT"
    ∷ "SO_SECURITY_ENCRYPTION_NETWORK" ∷ "SO_BINDTODEVICE" ∷ "SO_ATTACH_FILTER" ∷ "SO_DETACH_FILTER"
    ∷ "SO_GET_FILTER" ∷ "SO_PEERNAME" ∷ "SO_TIMESTAMP" ∷ "SO_TIMESTAMP" ∷ "SO_ACCEPTCONN"
    ∷ "SO_PEERSEC" ∷ "SO_PASSSEC" ∷ "SO_TIMESTAMPNS" ∷ "SO_MARK" ∷ "SO_TIMESTAMPING" ∷ "SO_PROTOCOL"
    ∷ "SO_DOMAIN" ∷ "SO_RXQ_OVFL" ∷ "SO_WIFI_STATUS" ∷ "SO_PEEK_OFF" ∷ "SO_NOFCS" ∷ "SO_LOCK_FILTER"
    ∷ "SO_SELECT_ERR_QUEUE" ∷ "SO_BUSY_POLL" ∷ "SO_MAX_PACING_RATE" ∷ "SO_BPF_EXTENSIONS" ∷ []

abbrev pub sol_tcp_options : List String
sol_tcp_options =
    "TCP_NODELAY" ∷ "TCP_MAXSEG" ∷ "TCP_CORK" ∷ "TCP_KEEPIDLE" ∷ "TCP_KEEPINTVL" ∷ "TCP_KEEPCNT"
    ∷ "TCP_SYNCNT" ∷ "TCP_LINGER2" ∷ "TCP_DEFER_ACCEPT" ∷ "TCP_WINDOW_CLAMP" ∷ "TCP_INFO"
    ∷ "TCP_QUICKACK" ∷ "TCP_CONGESTION" ∷ "TCP_MD5SIG" ∷ "TCP_THIN_LINEAR_TIMEOUTS"
    ∷ "TCP_THIN_DUPACK" ∷ "TCP_USER_TIMEOUT" ∷ "TCP_REPAIR" ∷ "TCP_REPAIR_QUEUE" ∷ "TCP_QUEUE_SEQ"
    ∷ "TCP_REPAIR_OPTIONS" ∷ "TCP_FASTOPEN" ∷ "TCP_TIMESTAMP" ∷ "TCP_NOTSENT_LOWAT" ∷ []

abbrev pub sol_udp_options : List String
sol_udp_options = "UDP_CORK" ∷ []

abbrev pub sol_ip_options : List String
sol_ip_options =
    "IP_TOS" ∷ "IP_TTL" ∷ "IP_HDRINCL" ∷ "IP_OPTIONS" ∷ "IP_ROUTER_ALERT" ∷ "IP_RECVOPTS"
    ∷ "IP_RETOPTS" ∷ "IP_PKTINFO" ∷ "IP_PKTOPTIONS" ∷ "IP_MTU_DISCOVER" ∷ "IP_RECVERR"
    ∷ "IP_RECVTTL" ∷ "IP_RECVTOS" ∷ "IP_MTU" ∷ "IP_FREEBIND" ∷ "IP_IPSEC_POLICY" ∷ "IP_XFRM_POLICY"
    ∷ "IP_PASSSEC" ∷ "IP_TRANSPARENT" ∷ "IP_RECVRETOPTS" ∷ "IP_ORIGDSTADDR" ∷ "IP_RECVORIGDSTADDR"
    ∷ "IP_MINTTL" ∷ "IP_NODEFRAG" ∷ "IP_MULTICAST_IF" ∷ "IP_MULTICAST_TTL" ∷ "IP_MULTICAST_LOOP"
    ∷ "IP_ADD_MEMBERSHIP" ∷ "IP_DROP_MEMBERSHIP" ∷ "IP_UNBLOCK_SOURCE" ∷ "IP_BLOCK_SOURCE"
    ∷ "IP_ADD_SOURCE_MEMBERSHIP" ∷ "IP_DROP_SOURCE_MEMBERSHIP" ∷ "IP_MSFILTER" ∷ "MCAST_JOIN_GROUP"
    ∷ "MCAST_BLOCK_SOURCE" ∷ "MCAST_UNBLOCK_SOURCE" ∷ "MCAST_LEAVE_GROUP"
    ∷ "MCAST_JOIN_SOURCE_GROUP" ∷ "MCAST_LEAVE_SOURCE_GROUP" ∷ "MCAST_MSFILTER" ∷ "IP_MULTICAST_ALL"
    ∷ "IP_UNICAST_IF" ∷ []

abbrev pub sol_ipv6_options : List String
sol_ipv6_options =
    "IPV6_ADDRFORM" ∷ "IPV6_2292PKTINFO" ∷ "IPV6_2292HOPOPTS" ∷ "IPV6_2292DSTOPTS"
    ∷ "IPV6_2292RTHDR" ∷ "IPV6_2292PKTOPTIONS" ∷ "IPV6_CHECKSUM" ∷ "IPV6_HOPLIMIT" ∷ "IPV6_NEXTHOP"
    ∷ "IPV6_AUTHHDR" ∷ "IPV6_FLOWINFO" ∷ "IPV6_UNICAST_HOPS" ∷ "IPV6_MULTICAST_IF"
    ∷ "IPV6_MULTICAST_HOPS" ∷ "IPV6_MULTICAST_LOOP" ∷ "IPV6_ADD_MEMBERSHIP" ∷ "IPV6_DROP_MEMBERSHIP"
    ∷ "IPV6_ROUTER_ALERT" ∷ "IPV6_MTU_DISCOVER" ∷ "IPV6_MTU" ∷ "IPV6_RECVERR" ∷ "IPV6_V6ONLY"
    ∷ "IPV6_JOIN_ANYCAST" ∷ "IPV6_LEAVE_ANYCAST" ∷ "IPV6_FLOWLABEL_MGR" ∷ "IPV6_FLOWINFO_SEND"
    ∷ "IPV6_IPSEC_POLICY" ∷ "IPV6_XFRM_POLICY" ∷ "IPV6_RECVPKTINFO" ∷ "IPV6_PKTINFO"
    ∷ "IPV6_RECVHOPLIMIT" ∷ "IPV6_HOPLIMIT" ∷ "IPV6_RECVHOPOPTS" ∷ "IPV6_HOPOPTS"
    ∷ "IPV6_RTHDRDSTOPTS" ∷ "IPV6_RECVRTHDR" ∷ "IPV6_RTHDR" ∷ "IPV6_RECVDSTOPTS" ∷ "IPV6_DSTOPTS"
    ∷ "IPV6_RECVPATHMTU" ∷ "IPV6_PATHMTU" ∷ "IPV6_DONTFRAG" ∷ "IPV6_RECVTCLASS" ∷ "IPV6_TCLASS"
    ∷ "IPV6_ADDR_PREFERENCES" ∷ "IPV6_MINHOPCOUNT" ∷ "IPV6_ORIGDSTADDR" ∷ "IPV6_TRANSPARENT"
    ∷ "IPV6_UNICAST_IF" ∷ []

abbrev pub sol_packet_options : List String
sol_packet_options =
    "PACKET_ADD_MEMBERSHIP" ∷ "PACKET_DROP_MEMBERSHIP" ∷ "PACKET_RECV_OUTPUT" ∷ "PACKET_RX_RING"
    ∷ "PACKET_STATISTICS" ∷ "PACKET_COPY_THRESH" ∷ "PACKET_AUXDATA" ∷ "PACKET_ORIGDEV"
    ∷ "PACKET_VERSION" ∷ "PACKET_HDRLEN" ∷ "PACKET_RESERVE" ∷ "PACKET_TX_RING" ∷ "PACKET_LOSS"
    ∷ "PACKET_VNET_HDR" ∷ "PACKET_TX_TIMESTAMP" ∷ "PACKET_TIMESTAMP" ∷ "PACKET_FANOUT"
    ∷ "PACKET_TX_HAS_OFF" ∷ "PACKET_QDISC_BYPASS" ∷ "PACKET_ROLLOVER_STATS" ∷ "PACKET_FANOUT_DATA"
    ∷ []

abbrev pub sol_raw_options : List String
sol_raw_options = "ICMP_FILTER" ∷ []
