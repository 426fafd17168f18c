-- ===== src/Examples/Filters.antt =====
-- The theorems about the filters of packet_sniffer.c at two IPv4 addresses.
use tcpsnitch.Base.{◌<◌, ◌≡◌, refl, none, some, [], ◌∷◌, inl, arith, ◌==◌, if◌then◌else◌}
use tcpsnitch.Bytes.{Text}
use tcpsnitch.Text.{codes, decimal}
use tcpsnitch.CLib.{af_inet}
use tcpsnitch.Capture.{Printer, family, port_of, alloc_ip_str, alloc_capture_filter, double_filter}
use tcpsnitch.Capture.Filter.{IsInet, alloc_capture_filter-double}

-- Port 80 of 10.0.0.1, for which `printer` stands in.
abbrev peer : Text
peer = 2 ∷ 0 ∷ 0 ∷ 80 ∷ 10 ∷ 0 ∷ 0 ∷ 1 ∷ []

abbrev printer : Printer
printer fam bytes = if fam == af_inet then some (codes "10.0.0.1") else none

peer-IsInet : IsInet peer
unfolding family
peer-IsInet = inl refl

port_small : port_of peer < 65536
unfolding port_of
port_small = omega arith

alloc_ip_str-peer : alloc_ip_str printer peer ≡ some (codes "10.0.0.1")
unfolding alloc_ip_str family
alloc_ip_str-peer = refl

alloc_capture_filter-double_example :
    alloc_capture_filter printer (some peer) peer
    ≡ some (double_filter (decimal (port_of peer)) (codes "10.0.0.1") (decimal (port_of peer)))
alloc_capture_filter-double_example =
    alloc_capture_filter-double printer peer peer peer-IsInet peer-IsInet port_small port_small
      alloc_ip_str-peer alloc_ip_str-peer (omega arith)
