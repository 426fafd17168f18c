-- ===== src/Json/Sockopts.antt =====
-- json_builder.c: the values of socket options. The block that an option's value was copied to is
-- read as the type that its name stands for.
use tcpsnitch.Base.{
  ℕ, ℤ, pos, Bool, not, Option, none, some, List, [], ◌∷◌, String, ◌==◌, eqb_ℤ, ◌||◌, if◌then◌else◌,
  take, to_int,
}
use tcpsnitch.Outcome.{Outcome, done}
use tcpsnitch.Bytes.{Text}
use tcpsnitch.CLib.{af_inet, af_inet6}
use tcpsnitch.Event.{Sockopt}
use tcpsnitch.Constants.{alloc_sockopt_level, alloc_sockopt_name}
use tcpsnitch.Json.{Jansson, Names, add_all, text, number, truth, nested, object_of}
use tcpsnitch.Json.Memory.{◌>>=◌, bytes_at, read_int, read_uint, read_long, little_endian}

-- `sizeof(struct ip_mreqn)`, `sizeof(struct in_addr)`, `sizeof(struct in6_addr)`, `IF_NAMESIZE`.
abbrev ip_mreqn_size : ℕ
ip_mreqn_size = 12

abbrev in_addr_size : ℕ
in_addr_size = 4

abbrev in6_addr_size : ℕ
in6_addr_size = 16

abbrev if_namesize : ℕ
if_namesize = 16

pub alloc_iface_name : Names → ℕ → ℤ → Option Text
alloc_iface_name names fd iface_index = elim (names.interface fd iface_index) [
  | none ↦ none
  | some name ↦ some (take if_namesize name)
]

module _ (j : Jansson) where
  unfoldable pub build_timeval : Text → Outcome j.Object
  unfolding add_all read_long
  build_timeval tv = do
    sec ← read_long tv 0
    usec ← read_long tv 8
    done (object_of j (("tv_sec", number j sec) ∷ ("tv_usec", number j usec) ∷ []))

  unfoldable pub build_linger : Text → Outcome j.Object
  unfolding add_all read_int
  build_linger linger = do
    onoff ← read_int linger 0
    time ← read_int linger 4
    done (object_of j (("l_onoff", number j onoff) ∷ ("l_linger", number j time) ∷ []))

  -- `*((int *)sockopt->optval)` as a number, and as a truth value.
  abbrev pub int_value : Text → Outcome (Option j.Json)
  int_value optval = do i ← read_int optval 0; done (number j i)

  abbrev pub bool_value : Text → Outcome (Option j.Json)
  bool_value optval = do i ← read_int optval 0; done (truth j (not (eqb_ℤ i (pos 0))))

  unfoldable pub build_sol_socket_optval : Sockopt → Outcome (Option j.Json)
  unfolding build_timeval build_linger read_int
  build_sol_socket_optval sockopt =
      if name == 20 || name == 21
      then (do tv ← build_timeval sockopt.optval; done (nested j tv))
      else if name == 13
      then (do linger ← build_linger sockopt.optval; done (nested j linger))
      else if name == 8 || (name == 7 || name == 4)
      then int_value sockopt.optval
      else if name == 9 || (name == 1 || (name == 2 || name == 6))
      then bool_value sockopt.optval
      else done none
    where
      -- SO_RCVTIMEO 20, SO_SNDTIMEO 21; SO_LINGER 13; SO_RCVBUF 8, SO_SNDBUF 7, SO_ERROR 4;
      -- SO_KEEPALIVE 9, SO_DEBUG 1, SO_REUSEADDR 2, SO_BROADCAST 6.
      name : ℕ
      name = sockopt.optname

  -- TCP_KEEPINTVL 5, TCP_KEEPIDLE 4; TCP_NODELAY 1.
  unfoldable pub build_sol_tcp_optval : Sockopt → Outcome (Option j.Json)
  unfolding read_int
  build_sol_tcp_optval sockopt =
      if sockopt.optname == 5 || sockopt.optname == 4
      then int_value sockopt.optval
      else if sockopt.optname == 1
      then bool_value sockopt.optval
      else done none

  module _ (names : Names) where
    -- No object where `inet_ntop` fails.
    unfoldable pub build_in_addr : ℕ → Text → Option j.Json
    unfolding add_all
    build_in_addr af in_addr = elim (names.inet_ntop af in_addr) [
      | none ↦ none
      | some str ↦ nested j (object_of j (("in_addr", text j (some str)) ∷ []))
    ]

    -- The name of an interface, for an index that is not 0.
    abbrev named : String → ℕ → ℤ → List (String × Option j.Json)
    named key fd index =
        if eqb_ℤ index (pos 0) then [] else (key, text j (alloc_iface_name names fd index)) ∷ []

    unfoldable pub build_ip_mreqn : Text → (includes_ifindex : Bool) → ℕ → Outcome j.Object
    unfolding add_all build_in_addr read_int bytes_at alloc_iface_name
    build_ip_mreqn mreqn includes_ifindex fd = do
      multiaddr ← bytes_at mreqn 0 in_addr_size
      address ← bytes_at mreqn 4 in_addr_size
      ifindex ← interface
      done (
          object_of j (
            ("imr_multiaddr", build_in_addr af_inet multiaddr)
            ∷ ("imr_address", build_in_addr af_inet address)
            ∷ ifindex))
      where
        interface : Outcome (List (String × Option j.Json))
        interface = if not includes_ifindex then done [] else do
          index ← read_int mreqn 8
          done (("imr_ifindex", number j index) ∷ named "imr_ifname" fd index)

    -- The index, an `unsigned int`, is passed on to `alloc_iface_name` as an `int`.
    unfoldable pub build_ipv6_mreq : Text → ℕ → Outcome j.Object
    unfolding add_all build_in_addr read_uint bytes_at alloc_iface_name
    build_ipv6_mreq mreq fd = do
      multiaddr ← bytes_at mreq 0 in6_addr_size
      index ← read_uint mreq in6_addr_size
      done (
          object_of j (
            ("ipv6mr_multiaddr", build_in_addr af_inet6 multiaddr)
            ∷ ("ipv6mr_interface", number j (pos index))
            ∷ (if index == 0
                then []
                else ("ipv6mr_interface_name", text j (alloc_iface_name names fd (to_int index)))
                  ∷ [])))

    -- IP_ADD_MEMBERSHIP 35, IP_DROP_MEMBERSHIP 36; IP_MULTICAST_IF 32; IP_MULTICAST_TTL 33;
    -- IP_MULTICAST_LOOP 34.
    unfoldable pub build_sol_ip_optval : Sockopt → Outcome (Option j.Json)
    unfolding build_ip_mreqn build_in_addr bytes_at read_int
    build_sol_ip_optval sockopt =
        if sockopt.optname == 35 || sockopt.optname == 36
        then mreqn
        else if sockopt.optname == 32
        then if sockopt.getsockopt || sockopt.optlen == in_addr_size
          then (do addr ← bytes_at sockopt.optval 0 in_addr_size; done (build_in_addr af_inet addr))
          else mreqn
        else if sockopt.optname == 33
        then (do ttl ← bytes_at sockopt.optval 0 1; done (number j (pos (little_endian ttl))))
        else if sockopt.optname == 34
        then bool_value sockopt.optval
        else done none
      where
        mreqn : Outcome (Option j.Json)
        mreqn = do
          o ← build_ip_mreqn sockopt.optval (sockopt.optlen == ip_mreqn_size) sockopt.fd
          done (nested j o)

    -- IPV6_ADD_MEMBERSHIP 20, IPV6_DROP_MEMBERSHIP 21; IPV6_MULTICAST_HOPS 18; IPV6_MULTICAST_IF 17;
    -- IPV6_V6ONLY 26, IPV6_MULTICAST_LOOP 19.
    unfoldable pub build_sol_ipv6_optval : Sockopt → Outcome (Option j.Json)
    unfolding build_ipv6_mreq alloc_iface_name read_int
    build_sol_ipv6_optval sockopt =
        if sockopt.optname == 20 || sockopt.optname == 21
        then (do o ← build_ipv6_mreq sockopt.optval sockopt.fd; done (nested j o))
        else if sockopt.optname == 18
        then int_value sockopt.optval
        else if sockopt.optname == 17
        then (do
          index ← read_int sockopt.optval 0
          done (text j (alloc_iface_name names sockopt.fd index)))
        else if sockopt.optname == 26 || sockopt.optname == 19
        then bool_value sockopt.optval
        else done none

    -- SOL_SOCKET 1, SOL_TCP 6, SOL_IP 0, SOL_IPV6 41.
    unfoldable pub build_optval : Sockopt → Outcome (Option j.Json)
    unfolding build_sol_socket_optval build_sol_tcp_optval build_sol_ip_optval build_sol_ipv6_optval
    build_optval sockopt =
        if sockopt.level == 1
        then build_sol_socket_optval sockopt
        else if sockopt.level == 6
        then build_sol_tcp_optval sockopt
        else if sockopt.level == 0
        then build_sol_ip_optval sockopt
        else if sockopt.level == 41
        then build_sol_ipv6_optval sockopt
        else done none

    -- The entries that an option adds to the details; its value only if it has a length.
    unfoldable pub add_sockopt : Sockopt → Outcome (List (String × Option j.Json))
    unfolding build_optval
    add_sockopt sockopt = do
      value ← (if sockopt.optlen == 0 then done [] else optval)
      done (
          ("level", text j (some (alloc_sockopt_level names.headers sockopt.level)))
          ∷ (
            "optname",
            text j (some (alloc_sockopt_name names.headers sockopt.level sockopt.optname)),
          )
          ∷ ("optlen", number j (pos sockopt.optlen))
          ∷ value)
      where
        optval : Outcome (List (String × Option j.Json))
        optval = do v ← build_optval sockopt; done (("optval", v) ∷ [])
