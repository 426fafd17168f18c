-- ===== src/Event/Nodes.antt =====
-- The linked list of the events of a socket (sock_events.c), on a store of nodes: what the list of its
-- events in a `Socket` stands for. The blocks that an event points to are not in the store.
pub mod Chain
pub mod Refine
use tcpsnitch.Base.{ℕ, zero, suc, Option, none, some, ◌==◌, if◌then◌else◌}
use tcpsnitch.Outcome.{Outcome, done, fault, null_deref, dangling, diverges, bind_outcome}
use tcpsnitch.Event.{SockEvent}

-- SockEventNode; `none` is a null pointer.
pub record Node : Type 0 where
  pub event : SockEvent
  pub next : Option ℕ

-- The nodes by their addresses; no node is at an address that is free.
abbrev pub Store : Type 0
Store = ℕ → Option Node

abbrev pub store_at : ℕ → Option Node → Store → Store
store_at i o h j = if j == i then o else h j

unfoldable pub load_node : Store → ℕ → Outcome Node
load_node h i = elim (h i) [ none ↦ fault dangling | some node ↦ done node ]

-- `tail->next = node`
unfoldable pub link_tail : Store → Option ℕ → ℕ → Outcome Store
unfolding load_node
link_tail h none node = fault null_deref
link_tail h (some t) node =
    bind_outcome (load_node h t) (λ n. done (store_at t (some (record n { next = some node })) h))

-- `push_event`, with the pointers `head` and `tail` of the socket; `node` is the address that `malloc`
-- gives.
unfoldable pub push_node :
    (node : ℕ) → SockEvent → Store → (head tail : Option ℕ) → Outcome (Store × Option ℕ × Option ℕ)
unfolding link_tail
push_node node ev h none tail =
    done (store_at node (some (record { event = ev; next = none })) h, some node, some node)
push_node node ev h (some i) tail =
    bind_outcome (link_tail (store_at node (some (record { event = ev; next = none })) h) tail node)
      (λ h1. done (h1, some i, some node))

-- On fuel. To free a node is to take it from its address.
unfoldable pub free_events_list : (fuel : ℕ) → Store → Option ℕ → Outcome Store
unfolding load_node
free_events_list fuel h none = done h
free_events_list zero h (some i) = fault diverges
free_events_list (suc fuel) h (some i) =
    bind_outcome (load_node h i) (λ n. free_events_list fuel (store_at i none h) n.next)
