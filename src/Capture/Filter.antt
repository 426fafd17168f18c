-- ===== src/Capture/Filter.antt =====
-- The filters of packet_sniffer.c and the buffers that they are printed to.
use tcpsnitch.Base.{
  ℕ, ◌+◌, ◌≤◌, ◌<◌, ◌≡◌, refl, ap, ◌⊎◌, inl, inr, some, ◌++◌, arith, length, length-append,
}
use tcpsnitch.Bytes.{Text}
use tcpsnitch.Text.{codes, decimal}
use tcpsnitch.Text.Digits.{decimal-length_le}
use tcpsnitch.Text.Paths.{snprintf-fits}
use tcpsnitch.CLib.{af_inet, af_inet6}
use tcpsnitch.Capture.{
  Printer, family, port_of, alloc_ip_str, alloc_port_str, ends_of, filter_of, alloc_capture_filter,
  filter_size, double_filter,
}

-- The family of an address of the Internet.
abbrev pub IsInet : Text → Type 0
IsInet addr = (family addr ≡ af_inet) ⊎ (family addr ≡ af_inet6)

-- The port of an Internet address is printed whole: the buffer of `alloc_port_str` holds every port of
-- two bytes.
pub alloc_port_str-decimal :
    (addr : Text)
    → IsInet addr
    → port_of addr < 65536
    → alloc_port_str addr ≡ some (decimal (port_of addr))
unfolding alloc_port_str
alloc_port_str-decimal addr (inl e) b =
    let fits : length (decimal (port_of addr)) < 6 =
      omega (arith, decimal-length_le 4 (port_of addr) (omega arith)) in
    rw (e, snprintf-fits 6 (decimal (port_of addr)) fits) refl
alloc_port_str-decimal addr (inr e) b =
    let fits : length (decimal (port_of addr)) < 6 =
      omega (arith, decimal-length_le 4 (port_of addr) (omega arith)) in
    rw (e, snprintf-fits 6 (decimal (port_of addr)) fits) refl

decimal-port : (p : ℕ) → p < 65536 → length (decimal p) ≤ 5
decimal-port p b = decimal-length_le 4 p (omega arith)

length-double_filter :
    (a b c : Text) → length (double_filter a b c) ≡ 25 + length a + length b + length c
length-double_filter a b c = omega (
  arith,
  length-append (codes "port ") a,
  length-append (codes "port " ++ a) (codes " and host "),
  length-append (codes "port " ++ a ++ codes " and host ") b,
  length-append (codes "port " ++ a ++ codes " and host " ++ b) (codes " and port "),
  length-append (codes "port " ++ a ++ codes " and host " ++ b ++ codes " and port ") c,
)

ends_of-inet :
    (inet_ntop : Printer) (addr : Text) {ip : Text}
    → IsInet addr
    → port_of addr < 65536
    → alloc_ip_str inet_ntop addr ≡ some ip
    → ends_of inet_ntop addr ≡ some (decimal (port_of addr), ip)
unfolding ends_of
ends_of-inet inet_ntop addr i b e =
    let p = alloc_port_str-decimal addr i b in rw (p, e, ends_of) refl

-- The filter between two Internet addresses whose ports have two bytes names the port of the first and
-- the address and the port of the second, whole: the buffer holds every text of an address that fits
-- INET6_ADDRSTRLEN bytes.
pub alloc_capture_filter-double :
    (inet_ntop : Printer) (addr1 addr2 : Text) {ip1 ip2 : Text}
    → IsInet addr1
    → IsInet addr2
    → port_of addr1 < 65536
    → port_of addr2 < 65536
    → alloc_ip_str inet_ntop addr1 ≡ some ip1
    → alloc_ip_str inet_ntop addr2 ≡ some ip2
    → length ip2 < 46
    → alloc_capture_filter inet_ntop (some addr1) addr2
      ≡ some (double_filter (decimal (port_of addr1)) ip2 (decimal (port_of addr2)))
unfolding alloc_capture_filter filter_of
alloc_capture_filter-double inet_ntop addr1 addr2 {ip1} {ip2} i1 i2 b1 b2 e1 e2 short =
    let fits : length (double_filter (decimal (port_of addr1)) ip2 (decimal (port_of addr2)))
        < filter_size =
      omega (
        arith,
        length-double_filter (decimal (port_of addr1)) ip2 (decimal (port_of addr2)),
        decimal-port (port_of addr1) b1,
        decimal-port (port_of addr2) b2,
      ) in
    let end1 = ends_of-inet inet_ntop addr1 i1 b1 e1 in
    let end2 = ends_of-inet inet_ntop addr2 i2 b2 e2 in
    let whole =
      snprintf-fits filter_size
        (double_filter (decimal (port_of addr1)) ip2 (decimal (port_of addr2))) fits in
    rw (end1, end2, alloc_capture_filter) (ap some whole)
