-- ===== src/Capture/Start.antt =====
-- The start of a packet capture (packet_sniffer.c), over the answers of libpcap.
use tcpsnitch.Base.{ℕ, Bool, Option, none, some, [], ◌∷◌, ◌++◌, ◌&&◌, if◌then◌else◌, length}
use tcpsnitch.Outcome.{done}
use tcpsnitch.Bytes.{Text}
use tcpsnitch.Capture.{Printer}
use tcpsnitch.World.{M}

-- The answer of `bind`: the result 0, `errno == EADDRINUSE`, or another error.
pub data BindAnswer : Type 0 where
  bound in_use not_bound : BindAnswer

-- What a capture meets: the original `bind` on any address of a family with a port, inet_ntop, and
-- which of the functions of libpcap succeed.
pub record Sniffer : Type 0 where
  pub orig_bind : (fd : ℕ) (ipv6 : Bool) (port : ℕ) → BindAnswer
  pub inet_ntop : Printer
  pub pcap_open_live : Bool
  pub pcap_compile : (filter : Text) → Bool
  pub pcap_setfilter : Bool
  pub pcap_setnonblock : Bool
  pub pcap_dump_open : (path : Text) → Bool

-- A capture that is started gets the next flag. Its thread is started last; where one of the steps
-- fails, those before it are undone.
unfoldable pub start_capture : Sniffer → Text → Text → M (Option ℕ)
start_capture p filter path k w =
    if p.pcap_open_live
      && (p.pcap_compile filter
          && (p.pcap_setfilter
              && (p.pcap_setnonblock && (p.pcap_dump_open path && k.pthread_create))))
    then done (some (length w.captures), record w { captures = w.captures ++ (filter, path) ∷ [] })
    else done (none, w)
