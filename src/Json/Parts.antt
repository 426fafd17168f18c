-- ===== src/Json/Parts.antt =====
-- json_builder.c: the parts of events as JSON objects.
use tcpsnitch.Base.{
  ℕ, zero, suc, pos, Option, none, some, List, [], ◌∷◌, ◌++◌, String, ltb, ◌==◌, if◌then◌else◌, not,
  to_int, to_long,
}
use tcpsnitch.Outcome.{Outcome, done, fault, out_of_bounds}
use tcpsnitch.Bytes.{Text}
use tcpsnitch.Text.{alloc_str_from_int}
use tcpsnitch.CLib.{af_inet, af_inet6}
use tcpsnitch.Event.{SockInfo, Addr, Iovec, Msghdr, Mmsghdr}
use tcpsnitch.Constants.{alloc_sock_domain_str, alloc_sock_type_str}
use tcpsnitch.Capture.{family, alloc_ip_str, alloc_port_str}
use tcpsnitch.Json.{Jansson, Names, add_all, text, literal, number, truth, nested, object_of}
use tcpsnitch.Json.Flags.{build_recv_flags}
use tcpsnitch.Event.Whole.{rounds}
use tcpsnitch.Json.Memory.{◌>>=◌, read_int}

-- `sizeof(struct cmsghdr)`, after which the data of a control message begin.
abbrev pub cmsghdr_size : ℕ
cmsghdr_size = 16

module _ (j : Jansson) where
  -- `for (int i = 0; i < iovec_count; i++)`: a size that is not there is read beyond the array.
  unfoldable pub append_sizes : j.Array → List ℕ → (n : ℕ) → Outcome j.Array
  append_sizes a sizes zero = done a
  append_sizes a [] (suc n) = fault out_of_bounds
  append_sizes a (size ∷ sizes) (suc n) =
      append_sizes (j.append_new a (j.json_integer (to_long size))) sizes n

  unfoldable pub build_iovec : Iovec → Outcome j.Object
  unfolding add_all append_sizes
  build_iovec iovec = do
    sizes ← append_sizes j.json_array iovec.iovec_sizes (rounds iovec.iovec_count)
    done (
        object_of j (
          ("iovec_count", number j iovec.iovec_count) ∷ ("iovec_sizes", some (j.array sizes)) ∷ []))

  -- `CMSG_FIRSTHDR` is null where the control data are shorter than a header.
  unfoldable pub build_control_data : Msghdr → Outcome j.Array
  unfolding add_all
  build_control_data msgh = if ltb msgh.controllen cmsghdr_size then done j.json_array else do
    level ← read_int msgh.control 8
    type ← read_int msgh.control 12
    let cd = object_of j (("cmsg_level", number j level) ∷ ("cmsg_type", number j type) ∷ [])
    done (j.append_new j.json_array (j.object cd))

  unfoldable pub build_msghdr : Msghdr → Outcome j.Object
  unfolding add_all build_recv_flags build_iovec build_control_data
  build_msghdr msg = do
    iovec ← build_iovec msg.iovec
    cds ← build_control_data msg
    done (
        object_of j (
          flags_entry msg.flags
          ++ ("iovec", nested j iovec)
            ∷ ("control_data_len", number j (to_long msg.controllen))
            ∷ ("control_data", some (j.array cds))
            ∷ []))
    where
      -- Only `recvmsg` has flags.
      flags_entry : ℕ → List (String × Option j.Json)
      flags_entry flags =
          if flags == 0 then [] else ("flags", nested j (build_recv_flags j flags)) ∷ []

  unfoldable pub append_messages : j.Array → List Mmsghdr → (n : ℕ) → Outcome j.Array
  unfolding add_all build_msghdr
  append_messages a vec zero = done a
  append_messages a [] (suc n) = fault out_of_bounds
  append_messages a (m ∷ vec) (suc n) = do
    msghdr ← build_msghdr m.msghdr
    let o = object_of j (
        ("transmitted_bytes", number j (pos m.bytes_transmitted))
        ∷ ("msghdr", nested j msghdr)
        ∷ [])
    append_messages (j.append_new a (j.object o)) vec n

  -- The count is passed on as an `int`.
  unfoldable pub build_mmsghdr_vec : List Mmsghdr → ℕ → Outcome j.Array
  unfolding append_messages
  build_mmsghdr_vec vec count = append_messages j.json_array vec (rounds (to_int count))

  -- An address of no length is left out; the family of one that is not of the Internet too.
  unfoldable pub build_addr : Names → Addr → Option j.Json
  unfolding add_all
  build_addr names addr =
      if addr.len == 0
      then none
      else nested j (
          object_of j (
            family_entry (family addr.sockaddr_sto)
            ++ ("ip", text j (alloc_ip_str names.inet_ntop addr.sockaddr_sto))
              ∷ ("port", text j (alloc_port_str addr.sockaddr_sto))
              ∷ []))
    where
      family_entry : ℕ → List (String × Option j.Json)
      family_entry f =
          if f == af_inet
          then ("sa_family", literal j "AF_INET") ∷ []
          else if f == af_inet6
          then ("sa_family", literal j "AF_INET6") ∷ []
          else []

  unfoldable pub build_sock_info : Names → SockInfo → Option j.Json
  unfolding add_all
  build_sock_info names info =
      if not info.filled
      then none
      else nested j (
          object_of j (
            ("domain", text j (some (alloc_sock_domain_str names.headers info.domain)))
            ∷ ("type", text j (some (alloc_sock_type_str names.headers info.type)))
            ∷ ("protocol", text j (some (protocol_name info.protocol)))
            ∷ ("SOCK_CLOEXEC", truth j info.sock_cloexec)
            ∷ ("SOCK_NONBLOCK", truth j info.sock_nonblock)
            ∷ []))
    where
      protocol_name : ℕ → Text
      protocol_name p =
          let number = alloc_str_from_int (to_int p) in
          if p == 0
          then number
          else elim (names.getprotobynumber p) [ none ↦ number | some name ↦ name ]
