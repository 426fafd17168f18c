-- ===== src/CLib.antt =====
-- The helpers of lib.c: what a descriptor is, the time, and numbers read from the environment.
pub mod Numbers
use tcpsnitch.Base.{
  ℕ, ◌+◌, ◌-◌, ◌*◌, ◌%◌, ◌^◌, ℤ, pos, negsuc, minus_one, negate, Bool, true, false, ◌&&◌, ◌||◌, not,
  Option, none, some, List, [], ◌∷◌, leb, ltb, ◌==◌, eqb_ℤ, ltb_ℤ, if◌then◌else◌, is_some,
}
use tcpsnitch.Bytes.{Text}
use tcpsnitch.Kernel.{Kernel}

-- Numbers of Linux for SOL_SOCKET, its options, address families and socket types.
abbrev pub sol_socket : ℕ
sol_socket = 1

abbrev pub so_type : ℕ
so_type = 3

abbrev pub so_protocol : ℕ
so_protocol = 38

abbrev pub so_domain : ℕ
so_domain = 39

abbrev pub af_inet : ℕ
af_inet = 2

abbrev pub af_inet6 : ℕ
af_inet6 = 10

abbrev pub af_packet : ℕ
af_packet = 17

abbrev pub sock_stream : ℕ
sock_stream = 1

pub is_fd : Kernel → ℕ → Bool
is_fd k fd = k.getfd fd

pub is_socket : Kernel → ℕ → Bool
unfolding is_fd
is_socket k fd = if not (is_fd k fd) then false else elim (k.fstat fd) [ none ↦ false | some s ↦ s ]

-- `conf_opt_c` is 0 where no packets are captured.
is_inet_domain : ℤ → ℕ → Bool
is_inet_domain conf_opt_c optval =
    optval == af_inet
    || (optval == af_inet6
        || (if not (eqb_ℤ conf_opt_c (pos 0)) then false else optval == af_packet))

unfoldable pub is_inet_socket : Kernel → ℤ → ℕ → Bool
unfolding is_socket is_inet_domain
is_inet_socket k conf_opt_c fd =
    if not (is_socket k fd) then false else elim (k.getsockopt fd sol_socket so_domain) [
      | none ↦ false
      | some optval ↦ is_inet_domain conf_opt_c optval
    ]

pub is_tcp_socket : Kernel → ℤ → ℕ → Bool
unfolding is_inet_socket
is_tcp_socket k conf_opt_c fd =
    if not (is_inet_socket k conf_opt_c fd)
    then false
    else elim (k.getsockopt fd sol_socket so_type) [
      | none ↦ false
      | some optval ↦ optval == sock_stream
    ]

-- Microseconds in an `unsigned long`, at the call of `gettimeofday` numbered `n`; 0 on an error.
pub time_micros : Kernel → ℕ → ℕ
time_micros k n = elim (k.time_of_day n) [
  | none ↦ 0
  | some (tv_sec, tv_usec) ↦ (tv_sec * 1000000 + tv_usec) % 2 ^ 64
]

is_space : ℕ → Bool
is_space c = c == b' ' || (leb 9 c && leb c 13)

is_digit : ℕ → Bool
is_digit c = leb b'0' c && leb c b'9'

skip_spaces : Text → Text
skip_spaces [] = []
skip_spaces (c ∷ cs) = if is_space c then skip_spaces cs else c ∷ cs

-- The digits at the front, read after `acc`, and the rest of the text.
read_digits : ℕ → Text → ℕ × Text
read_digits acc [] = (acc, [])
read_digits acc (c ∷ cs) = elim (is_digit c) [
  | true ↦ read_digits (acc * 10 + (c - b'0')) cs
  | false ↦ (acc, c ∷ cs)
]

starts_with_digit : Text → Bool
starts_with_digit [] = false
starts_with_digit (c ∷ cs) = is_digit c

abbrev pub long_max : ℕ
long_max = 2 ^ 63 - 1

-- LONG_MIN is `negsuc long_max`.
clamp_long : Bool → ℕ → ℤ
clamp_long true n = if ltb long_max n then negsuc long_max else negate n
clamp_long false n = if ltb long_max n then pos long_max else pos n

-- `strtol(str, &str_end, 10)`: the number, and the text that `str_end` points to. Without a digit
-- the number is 0 and `str_end` is `str`.
signed_digits : Text → Bool → Text → ℤ × Text
unfolding read_digits starts_with_digit clamp_long
signed_digits str minus cs =
    if starts_with_digit cs
    then (let (n, rest) = read_digits 0 cs in (clamp_long minus n, rest))
    else (pos 0, str)

after_spaces : Text → Text → ℤ × Text
unfolding signed_digits
after_spaces str [] = (pos 0, str)
after_spaces str (c ∷ cs) =
    if c == b'-'
    then signed_digits str true cs
    else if c == b'+'
    then signed_digits str false cs
    else signed_digits str false (c ∷ cs)

strtol : Text → ℤ × Text
unfolding after_spaces skip_spaces
strtol str = after_spaces str (skip_spaces str)

accept_long : ℤ → Text → ℤ
accept_long val [] =
    if eqb_ℤ val (negsuc long_max) || eqb_ℤ val (pos long_max) then minus_one else val
accept_long val (c ∷ rest) = minus_one

pub parse_long : Text → ℤ
unfolding strtol accept_long
parse_long str = let (val, str_end) = strtol str in accept_long val str_end

pub get_env_as_long : Kernel → Text → ℤ
get_env_as_long k env_var = elim (k.getenv env_var) [
  | none ↦ minus_one
  | some var_str ↦ parse_long var_str
]

-- An empty variable counts as one that is not set.
pub get_str_env : Kernel → Text → Option Text
get_str_env k env_var = elim (k.getenv env_var) [
  | none ↦ none
  | some [] ↦ none
  | some (c ∷ cs) ↦ some (c ∷ cs)
]

-- The default value is only logged.
pub get_long_opt_or_defaultval : Kernel → Text → ℤ → ℤ
unfolding get_env_as_long
get_long_opt_or_defaultval k opt def_val = get_env_as_long k opt
