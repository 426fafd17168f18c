-- ===== src/Examples/Nodes.antt =====
-- A socket with two nodes, at the addresses 5 and 9.
use tcpsnitch.Base.{refl, none, some, [], ◌∷◌, ◌==◌, if◌then◌else◌, arith}
use tcpsnitch.Outcome.{Returns}
use tcpsnitch.Event.Nodes.{Store, push_node, free_events_list}
use tcpsnitch.Event.Nodes.Chain.{HoldsEvents, linked, ended, Pushed, Freed, free_events_list-Freed}
use tcpsnitch.Event.Nodes.Refine.{push_event-Pushed}
use tcpsnitch.Sockets.{push_event}
use tcpsnitch.Examples.Setting.{some_event}
use tcpsnitch.Examples.Busy.{busy_socket}

abbrev two_nodes : Store
two_nodes i =
    if i == 5
    then some (record { event = some_event; next = some 9 })
    else if i == 9
    then some (record { event = some_event; next = none })
    else none

two_nodes-HoldsEvents : HoldsEvents two_nodes (some 5) (some 9) (5 ∷ 9 ∷ []) busy_socket.events
two_nodes-HoldsEvents = record {
  chain = linked refl refl (λ e. omega arith, tt) (linked refl refl tt ended);
  last = refl;
}

push_event-Pushed_example :
    Returns
      (λ (h', head', tail').
        Pushed two_nodes (5 ∷ 9 ∷ []) (push_event busy_socket some_event).events 7 h' head' tail')
      (push_node 7 some_event two_nodes (some 5) (some 9))
push_event-Pushed_example = push_event-Pushed busy_socket 7 some_event two_nodes-HoldsEvents refl

free_events_list-Freed_example :
    Returns (Freed two_nodes (5 ∷ 9 ∷ [])) (free_events_list 2 two_nodes (some 5))
free_events_list-Freed_example = free_events_list-Freed 2 (omega arith) two_nodes-HoldsEvents.chain
