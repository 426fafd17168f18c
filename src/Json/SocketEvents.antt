-- ===== src/Json/SocketEvents.antt =====
-- json_builder.c: the objects of the events of socket.h.
use tcpsnitch.Base.{ℕ, ℤ, Bool, Option, some, List, [], ◌∷◌, ◌++◌, String, to_int, to_long}
use tcpsnitch.Outcome.{Outcome, done}
use tcpsnitch.Event.{SockInfo, Addr, Sockopt, Msghdr, Mmsghdr, Timeout, SockEvent}
use tcpsnitch.Json.{Jansson, Names, number, truth, nested}
use tcpsnitch.Json.Memory.{◌>>=◌}
use tcpsnitch.Json.Flags.{build_send_flags, build_recv_flags, build_timeout}
use tcpsnitch.Json.Parts.{build_msghdr, build_mmsghdr_vec, build_addr, build_sock_info}
use tcpsnitch.Json.Sockopts.{add_sockopt}
use tcpsnitch.Json.Fields.{real_call, fake_call}

module _ (j : Jansson) (names : Names) where
  -- Entries that several kinds of events have.
  abbrev info_entry : SockInfo → List (String × Option j.Json)
  info_entry info = ("sock_info", build_sock_info j names info) ∷ []

  abbrev addr_entry : Addr → List (String × Option j.Json)
  addr_entry addr = ("addr", build_addr j names addr) ∷ []

  abbrev bytes_entry : ℕ → List (String × Option j.Json)
  bytes_entry bytes = ("bytes", number j (to_long bytes)) ∷ []

  unfoldable pub build_sock_ev_socket : SockEvent → SockInfo → j.Object
  build_sock_ev_socket ev info = real_call j names ev (info_entry info)

  unfoldable pub build_sock_ev_forked_socket : SockEvent → SockInfo → j.Object
  build_sock_ev_forked_socket ev info = fake_call j names ev (info_entry info)

  unfoldable pub build_sock_ev_ghost_socket : SockEvent → SockInfo → j.Object
  build_sock_ev_ghost_socket ev info = fake_call j names ev (info_entry info)

  unfoldable pub build_sock_ev_bind : SockEvent → Addr → j.Object
  build_sock_ev_bind ev addr = real_call j names ev (addr_entry addr)

  unfoldable pub build_sock_ev_connect : SockEvent → Addr → j.Object
  build_sock_ev_connect ev addr = real_call j names ev (addr_entry addr)

  unfoldable pub build_sock_ev_shutdown : SockEvent → (shut_rd shut_wr : Bool) → j.Object
  build_sock_ev_shutdown ev shut_rd shut_wr =
      real_call j names ev (("SHUT_RD", truth j shut_rd) ∷ ("SHUT_WR", truth j shut_wr) ∷ [])

  unfoldable pub build_sock_ev_listen : SockEvent → ℤ → j.Object
  build_sock_ev_listen ev backlog = real_call j names ev (("backlog", number j backlog) ∷ [])

  unfoldable pub build_sock_ev_accept : SockEvent → SockInfo → Addr → j.Object
  build_sock_ev_accept ev info addr = real_call j names ev (addr_entry addr ++ info_entry info)

  unfoldable pub build_sock_ev_accept4 : SockEvent → SockInfo → Addr → ℕ → j.Object
  build_sock_ev_accept4 ev info addr flags =
      real_call j names ev
        (addr_entry addr ++ ("flags", number j (to_int flags)) ∷ [] ++ info_entry info)

  unfoldable pub build_sock_ev_getsockopt : SockEvent → Sockopt → Outcome j.Object
  build_sock_ev_getsockopt ev sockopt = do
    details ← add_sockopt j names sockopt
    done (real_call j names ev (details))

  unfoldable pub build_sock_ev_setsockopt : SockEvent → Sockopt → Outcome j.Object
  build_sock_ev_setsockopt ev sockopt = do
    details ← add_sockopt j names sockopt
    done (real_call j names ev (details))

  unfoldable pub build_sock_ev_send : SockEvent → (bytes flags : ℕ) → j.Object
  build_sock_ev_send ev bytes flags =
      real_call j names ev
        (bytes_entry bytes ++ ("flags", nested j (build_send_flags j flags)) ∷ [])

  unfoldable pub build_sock_ev_recv : SockEvent → (bytes flags : ℕ) → j.Object
  build_sock_ev_recv ev bytes flags =
      real_call j names ev
        (bytes_entry bytes ++ ("flags", nested j (build_recv_flags j flags)) ∷ [])

  unfoldable pub build_sock_ev_sendto : SockEvent → (bytes flags : ℕ) → Addr → j.Object
  build_sock_ev_sendto ev bytes flags addr =
      real_call j names ev (
        bytes_entry bytes ++ ("flags", nested j (build_send_flags j flags)) ∷ [] ++ addr_entry addr)

  unfoldable pub build_sock_ev_recvfrom : SockEvent → (bytes flags : ℕ) → Addr → j.Object
  build_sock_ev_recvfrom ev bytes flags addr =
      real_call j names ev (
        bytes_entry bytes ++ ("flags", nested j (build_recv_flags j flags)) ∷ [] ++ addr_entry addr)

  unfoldable pub build_sock_ev_sendmsg : SockEvent → (bytes flags : ℕ) → Msghdr → Outcome j.Object
  build_sock_ev_sendmsg ev bytes flags msghdr = do
    msg ← build_msghdr j msghdr
    done (
        real_call j names ev (
          bytes_entry bytes
          ++ ("flags", nested j (build_send_flags j flags)) ∷ []
          ++ ("msghdr", nested j msg) ∷ []))

  unfoldable pub build_sock_ev_recvmsg : SockEvent → (bytes flags : ℕ) → Msghdr → Outcome j.Object
  build_sock_ev_recvmsg ev bytes flags msghdr = do
    msg ← build_msghdr j msghdr
    done (
        real_call j names ev (
          bytes_entry bytes
          ++ ("flags", nested j (build_recv_flags j flags)) ∷ []
          ++ ("msghdr", nested j msg) ∷ []))

  unfoldable pub build_sock_ev_sendmmsg :
      SockEvent → (bytes flags : ℕ) → ℕ → List Mmsghdr → Outcome j.Object
  build_sock_ev_sendmmsg ev bytes flags count vec = do
    messages ← build_mmsghdr_vec j vec count
    done (
        real_call j names ev (
          bytes_entry bytes
          ++ ("flags", nested j (build_send_flags j flags)) ∷ []
          ++ ("mmsghdr_count", number j (to_int count))
            ∷ ("mmsghdr_vec", some (j.array messages))
            ∷ []))

  unfoldable pub build_sock_ev_recvmmsg :
      SockEvent → (bytes flags : ℕ) → Timeout → ℕ → List Mmsghdr → Outcome j.Object
  build_sock_ev_recvmmsg ev bytes flags timeout count vec = do
    messages ← build_mmsghdr_vec j vec count
    done (
        real_call j names ev (
          bytes_entry bytes
          ++ ("flags", nested j (build_recv_flags j flags)) ∷ []
          ++ ("mmsghdr_count", number j (to_int count))
            ∷ ("mmsghdr_vec", some (j.array messages))
            ∷ []
          ++ ("timeout", nested j (build_timeout j timeout)) ∷ []))

  unfoldable pub build_sock_ev_getsockname : SockEvent → Addr → j.Object
  build_sock_ev_getsockname ev addr = real_call j names ev (addr_entry addr)

  unfoldable pub build_sock_ev_getpeername : SockEvent → Addr → j.Object
  build_sock_ev_getpeername ev addr = real_call j names ev (addr_entry addr)

  unfoldable pub build_sock_ev_sockatmark : SockEvent → j.Object
  build_sock_ev_sockatmark ev = real_call j names ev ([])

  unfoldable pub build_sock_ev_isfdtype : SockEvent → ℤ → j.Object
  build_sock_ev_isfdtype ev fdtype = real_call j names ev (("fdtype", number j fdtype) ∷ [])
