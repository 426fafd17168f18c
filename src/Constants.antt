-- ===== src/Constants.antt =====
-- The names of constants in the texts (constants.c): arrays of pairs that the preprocessor builds
-- from the macros which the system's headers define, and the search in them.
mod Tables
pub mod Named
use tcpsnitch.Base.{
  ℕ, ℤ, Option, none, some, List, [], ◌∷◌, ◌++◌, String, ◌==◌, eqb_ℤ, if◌then◌else◌, take, to_int,
}
use tcpsnitch.Bytes.{Text}
use tcpsnitch.Text.{codes, print_int, snprintf}
use tcpsnitch.Constants.Tables.Errnos.{
  errnos_first, errnos_second, errnos_third, errnos_fourth, errnos_fifth, errnos_sixth,
}
use tcpsnitch.Constants.Tables.Ioctls.{
  ioctls_first, ioctls_second, ioctls_third, ioctls_fourth, ioctls_fifth,
}
use tcpsnitch.Constants.Tables.Options.{
  fcntl_cmds, socket_domains, socket_types, sockopt_levels, sol_socket_options, sol_tcp_options,
  sol_udp_options, sol_ip_options, sol_ipv6_options, sol_packet_options, sol_raw_options,
}

-- The value that the system's headers give a macro, `none` where they do not define it.
abbrev pub Headers : Type 0
Headers = String → Option ℤ

pub record IntStrPair : Type 0 where
  pub cons : ℤ
  pub str : Text

-- `sizeof(IntStrPair.str)`
abbrev pub str_size : ℕ
str_size = 40

-- `ADD(constant)`: the name is stored in the array of the pair.
abbrev add : String → Option ℤ → List IntStrPair
add constant none = []
add constant (some value) = record { cons = value; str = take str_size (codes constant) } ∷ []

-- `#ifdef guard`, `ADD(constant)`, `#endif`.
unfoldable pub add_if : Headers → (guard constant : String) → List IntStrPair
add_if h guard constant = elim (h guard) [ none ↦ [] | some _ ↦ add constant (h constant) ]

unfoldable pub add_each : Headers → List String → List IntStrPair
unfolding add_if
add_each h [] = []
add_each h (name ∷ names) = add_if h name name ++ add_each h names

search : ℤ → List IntStrPair → Option Text
search cons [] = none
search cons (cur ∷ map) = if eqb_ℤ cur.cons cons then some cur.str else search cons map

-- The text that is stored, `strncpy` into a buffer of the size of the name's own.
unfoldable pub alloc_string_from_cons : ℤ → List IntStrPair → Text
unfolding search snprintf
alloc_string_from_cons cons map = elim (search cons map) [
  | some str ↦ take str_size str
  | none ↦ snprintf str_size (print_int cons)
]

module _ (h : Headers) where
  pub errnos : List IntStrPair
  unfolding add_each
  errnos =
      add_each h errnos_first
      ++ add_each h errnos_second
      ++ add_each h errnos_third
      ++ add_each h errnos_fourth
      ++ add_each h errnos_fifth
      ++ add_each h errnos_sixth

  pub ioctl_requests : List IntStrPair
  unfolding add_each add_if
  ioctl_requests =
      add_each h ioctls_first
      ++ add_each h ioctls_second
      ++ add_each h ioctls_third
      ++ add_each h ioctls_fourth
      ++ add_if h "SIOCSIFXQLEN" "SIOCSIFTXQLEN"
      ++ add_each h ioctls_fifth

  pub alloc_sock_domain_str : ℕ → Text
  unfolding alloc_string_from_cons add_each
  alloc_sock_domain_str domain = alloc_string_from_cons (to_int domain) (add_each h socket_domains)

  pub alloc_sock_type_str : ℕ → Text
  unfolding alloc_string_from_cons add_each
  alloc_sock_type_str type = alloc_string_from_cons (to_int type) (add_each h socket_types)

  pub alloc_sockopt_level : ℕ → Text
  unfolding alloc_string_from_cons add_each
  alloc_sockopt_level level = alloc_string_from_cons (to_int level) (add_each h sockopt_levels)

  -- The array of options for a level: numbers of Linux for SOL_SOCKET, SOL_TCP, SOL_UDP, SOL_IP,
  -- SOL_IPV6, SOL_PACKET and SOL_RAW.
  pub options_of : ℕ → List IntStrPair
  unfolding add_each
  options_of level =
      if level == 1
      then add_each h sol_socket_options
      else if level == 6
      then add_each h sol_tcp_options
      else if level == 17
      then add_each h sol_udp_options
      else if level == 0
      then add_each h sol_ip_options
      else if level == 41
      then add_each h sol_ipv6_options
      else if level == 263
      then add_each h sol_packet_options
      else if level == 255
      then add_each h (sol_raw_options ++ sol_ip_options)
      else add_each h sol_socket_options

  pub alloc_sockopt_name : ℕ → ℕ → Text
  unfolding alloc_string_from_cons options_of
  alloc_sockopt_name level optname = alloc_string_from_cons (to_int optname) (options_of level)

  pub alloc_fcntl_cmd_str : ℕ → Text
  unfolding alloc_string_from_cons add_each
  alloc_fcntl_cmd_str cmd = alloc_string_from_cons (to_int cmd) (add_each h fcntl_cmds)

  -- The request of `ioctl`, an `unsigned long`, is passed on as an `int`.
  pub alloc_ioctl_request_str : ℕ → Text
  unfolding alloc_string_from_cons ioctl_requests
  alloc_ioctl_request_str request = alloc_string_from_cons (to_int request) ioctl_requests

  unfoldable pub alloc_errno_str : ℤ → Text
  unfolding alloc_string_from_cons errnos
  alloc_errno_str err = alloc_string_from_cons err errnos
