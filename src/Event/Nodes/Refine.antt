-- ===== src/Event/Nodes/Refine.antt =====
-- `push_event` (sock_events.c) on the nodes of a socket, and on the list of its events.
use tcpsnitch.Base.{ℕ, ◌≡◌, Option, none, List}
use tcpsnitch.Outcome.{Returns}
use tcpsnitch.Event.{SockEvent, Socket}
use tcpsnitch.Event.Nodes.{Store, push_node}
use tcpsnitch.Event.Nodes.Chain.{HoldsEvents, Pushed, push_node-Pushed}
use tcpsnitch.Sockets.{push_event}

-- Where the nodes of a socket stand for its events, each at another address, and `malloc` gives an
-- address that is free, `push_event` ends without a fault on the nodes, which stand for the events of
-- the socket after it, in their order; no node of another socket has changed.
pub push_event-Pushed :
    (sock : Socket) (node : ℕ) (ev : SockEvent) {h : Store} {head tail : Option ℕ} {is : List ℕ}
    → HoldsEvents h head tail is sock.events
    → h node ≡ none
    → Returns
        (λ (h', head', tail'). Pushed h is (push_event sock ev).events node h' head' tail')
        (push_node node ev h head tail)
unfolding push_event
push_event-Pushed sock node ev holds free = push_node-Pushed node ev holds free
