-- ===== src/Capture.antt =====
-- The filter of a packet capture (packet_sniffer.c) and the texts of addresses that it is built from
-- (string_builders.c). An address is its bytes, the family in the first two of them; what
-- `inet_ntop` makes of the address of a family is a parameter.
pub mod Filter
pub mod Start
use tcpsnitch.Base.{
  ℕ, zero, suc, ◌+◌, ◌-◌, ◌*◌, ◌/◌, ◌%◌, Bool, Option, none, some, List, [], ◌∷◌, ◌++◌, ◌==◌, ltb,
  if◌then◌else◌, get_elem?, drop, take,
}
use tcpsnitch.Bytes.{Text}
use tcpsnitch.Text.{codes, decimal, snprintf}
use tcpsnitch.CLib.{af_inet, af_inet6, af_packet}

-- `inet_ntop(family, address)`: a text, or a failure.
abbrev pub Printer : Type 0
Printer = ℕ → Text → Option Text

abbrev byte : Text → ℕ → ℕ
byte addr i = elim (get_elem? addr i) [ none ↦ 0 | some b ↦ b ]

-- `addr->sa_family`, lowest byte first, and the port at the same place of both Internet families,
-- highest byte first.
unfoldable pub family : Text → ℕ
family addr = byte addr 0 + 256 * byte addr 1

unfoldable pub port_of : Text → ℕ
port_of addr = 256 * byte addr 2 + byte addr 3

-- "%02X" of a byte.
hex_digit : ℕ → ℕ
hex_digit d = if ltb d 10 then b'0' + d else b'A' + d - 10

hex2 : ℕ → Text
unfolding hex_digit
hex2 b = hex_digit (b / 16) ∷ hex_digit (b % 16) ∷ []

-- The bytes of a link address, with colons between them.
link_text : Text → Text
unfolding hex2
link_text [] = []
link_text (b ∷ []) = hex2 b
link_text (b ∷ bs) = hex2 b ++ b':' ∷ link_text bs

unfoldable pub alloc_ip_str : Printer → Text → Option Text
unfolding family link_text
alloc_ip_str inet_ntop addr =
    if family addr == af_inet
    then inet_ntop af_inet (take 4 (drop 4 addr))
    else if family addr == af_inet6
    then inet_ntop af_inet6 (take 16 (drop 8 addr))
    else if family addr == af_packet
    then some (link_text (take 6 (drop 12 addr)))
    else none

-- A port is printed into a buffer of six bytes; the link layer has none. An IPv4 port is printed a
-- second time, as the case falls through to that of IPv6.
pub alloc_port_str : Text → Option Text
unfolding family port_of snprintf
alloc_port_str addr =
    if family addr == af_inet
    then some (snprintf 6 (decimal (port_of addr)))
    else if family addr == af_inet6
    then some (snprintf 6 (decimal (port_of addr)))
    else if family addr == af_packet
    then some []
    else none

-- What is known of one end of a connection: its port and its address.
ends_of : Printer → Text → Option (Text × Text)
unfolding alloc_port_str alloc_ip_str
ends_of inet_ntop addr = elim (alloc_port_str addr) [
  | none ↦ none
  | some port ↦ elim (alloc_ip_str inet_ntop addr) [ none ↦ none | some ip ↦ some (port, ip) ]
]

abbrev pub filter_size : ℕ
filter_size = 200

abbrev pub double_filter : Text → Text → Text → Text
double_filter port1 ip2 port2 =
    codes "port " ++ port1 ++ codes " and host " ++ ip2 ++ codes " and port " ++ port2

abbrev pub single_filter : Text → Text → Text
single_filter ip2 port2 = codes "host " ++ ip2 ++ codes " and port " ++ port2

abbrev pub port_filter : Text → Text
port_filter port1 = codes "port " ++ port1

filter_of : Option (Text × Text) → Option (Text × Text) → Option Text
unfolding snprintf
filter_of (some (port1, ip1)) (some (port2, ip2)) =
    some (snprintf filter_size (double_filter port1 ip2 port2))
filter_of (some (port1, ip1)) none = some (snprintf filter_size (port_filter port1))
filter_of none (some (port2, ip2)) = some (snprintf filter_size (single_filter ip2 port2))
filter_of none none = none

-- The filter of a capture between two ends: `addr1` is a null pointer where the socket is not bound,
-- `addr2` the address that the program connects to, which is taken to be there.
pub alloc_capture_filter : Printer → Option Text → Text → Option Text
unfolding ends_of filter_of
alloc_capture_filter inet_ntop none addr2 = elim (ends_of inet_ntop addr2) [
  | none ↦ none
  | some e2 ↦ filter_of none (some e2)
]
alloc_capture_filter inet_ntop (some addr1) addr2 = elim (ends_of inet_ntop addr1) [
  | none ↦ none
  | some e1 ↦ elim (ends_of inet_ntop addr2) [
    | none ↦ none
    | some e2 ↦ filter_of (some e1) (some e2)
  ]
]
