-- ===== src/Event/Nodes/Chain.antt =====
-- The linked list of a socket (sock_events.c) stands for the list of its events.
use tcpsnitch.Base.{
  ℕ, zero, suc, ◌≤◌, ◌≡◌, ◌≢◌, refl, sym, ap, ◌∙◌, Option, none, some, List, [], ◌∷◌, ◌++◌, length,
  arith, eqb_refl, ne→eqb,
}
use tcpsnitch.Outcome.{done, Returns, returns, Returns-mono}
use tcpsnitch.Event.{SockEvent}
use tcpsnitch.Event.Nodes.{Node, Store, store_at, load_node, link_tail, push_node, free_events_list}

-- None of the addresses is `i`.
abbrev pub Apart : ℕ → List ℕ → Type 0
Apart i [] = Unit {0}
Apart i (j ∷ js) = (i ≢ j) × Apart i js

-- From `head` the nodes at the addresses follow each other, each at another address, with the events.
pub data IsChain (h : Store) : Option ℕ → List ℕ → List SockEvent → Type 0 where
  ended : IsChain h none [] []
  linked :
      {i : ℕ} {n : Node} {nx : Option ℕ} {is : List ℕ} {evs : List SockEvent}
      → h i ≡ some n
      → n.next ≡ nx
      → Apart i is
      → IsChain h nx is evs
      → IsChain h (some i) (i ∷ is) (n.event ∷ evs)

abbrev last_of : List ℕ → Option ℕ
last_of [] = none
last_of (i ∷ []) = some i
last_of (i ∷ j ∷ is) = last_of (j ∷ is)

-- The nodes of a socket with the pointers `head` and `tail`.
pub record HoldsEvents (h : Store) (head tail : Option ℕ) (is : List ℕ) (evs : List SockEvent)
    : Type 0 where
  pub chain : IsChain h head is evs
  pub last : tail ≡ last_of is

store_at-other : (i : ℕ) (o : Option Node) (h : Store) (j : ℕ) → j ≢ i → store_at i o h j ≡ h j
store_at-other i o h j ne = rw (ne→eqb j i ne) refl

store_at-same : (i : ℕ) (o : Option Node) (h : Store) → store_at i o h i ≡ o
store_at-same i o h = rw (eqb_refl i) refl

-- What is stored elsewhere changes no chain.
IsChain-elsewhere :
    {h : Store} {head : Option ℕ} {is : List ℕ} {evs : List SockEvent} (i : ℕ) (o : Option Node)
    → IsChain h head is evs
    → Apart i is
    → IsChain (store_at i o h) head is evs
IsChain-elsewhere i o ended a = ended
IsChain-elsewhere {h} i o (linked {i = j} e nx apart c) (ne, a) =
    linked (store_at-other i o h j (λ x. ne (sym x)) ∙ e) nx apart (IsChain-elsewhere i o c a)

-- An address that is free is not in a chain.
IsChain-free :
    {h : Store} {head : Option ℕ} {is : List ℕ} {evs : List SockEvent} (i : ℕ)
    → h i ≡ none
    → IsChain h head is evs
    → Apart i is
IsChain-free i e ended = tt
IsChain-free {h} i e (linked at _ _ c) =
    (λ same. no (sym at ∙ ap h (sym same) ∙ e), IsChain-free i e c)
  where
    no : {n : Node} → some n ≡ none → ⊥
    no x = cc

same_address : {a b : ℕ} → some a ≡ some b → a ≡ b
same_address h = cc

same_node : {a b : Node} → some a ≡ some b → a ≡ b
same_node h = cc

Apart-end : {i j : ℕ} (is : List ℕ) → Apart i is → i ≢ j → Apart i (is ++ j ∷ [])
Apart-end [] a ne = (ne, tt)
Apart-end (k ∷ is) (other, a) ne = (other, Apart-end is a ne)

Apart-last : {i t : ℕ} (is : List ℕ) → Apart i is → last_of is ≡ some t → i ≢ t
Apart-last [] a last e = cc
Apart-last (j ∷ []) (ne, _) last e = ne (e ∙ same_address (sym last))
Apart-last (j ∷ k ∷ is) (_, a) last e = Apart-last (k ∷ is) a last e

-- The store after a node has been put behind the last one.
abbrev grown : ℕ → Node → ℕ → SockEvent → Store → Store
grown t n node ev h =
    store_at t (some (record n { next = some node }))
      (store_at node (some (record { event = ev; next = none })) h)

module _ (h : Store) {t : ℕ} {n : Node} (node : ℕ) (ev : SockEvent) (at : h t ≡ some n) where
  abbrev added : Store
  added = store_at node (some (record { event = ev; next = none })) h

  grown-last :
      {i : ℕ} {m : Node}
      → i ≡ t
      → h i ≡ some m
      → grown t n node ev h i ≡ some (record m { next = some node })
  grown-last {i} same e =
      ap (grown t n node ev h) same
      ∙ store_at-same t (some (record n { next = some node })) added
      ∙ ap (λ (x : Node). some (record x { next = some node }))
          (same_node (sym at ∙ ap h (sym same) ∙ e))

  grown-new : node ≢ t → grown t n node ev h node ≡ some (record { event = ev; next = none })
  grown-new ne =
      store_at-other t (some (record n { next = some node })) added node ne
      ∙ store_at-same node (some (record { event = ev; next = none })) h

  grown-old : (i : ℕ) → i ≢ t → i ≢ node → grown t n node ev h i ≡ h i
  grown-old i ne ne' =
      store_at-other t (some (record n { next = some node })) added i ne
      ∙ store_at-other node (some (record { event = ev; next = none })) h i ne'

  link_tail-grown :
      {tail : Option ℕ}
      → tail ≡ some t
      → node ≢ t
      → link_tail added tail node ≡ done (grown t n node ev h)
  unfolding link_tail load_node
  link_tail-grown e ne =
      let old =
        store_at-other node (some (record { event = ev; next = none })) h t (λ x. ne (sym x))
        ∙ at in
      rw (e, link_tail, load_node, old) refl

  grown-IsChain :
      {head : Option ℕ} {is : List ℕ} {evs : List SockEvent}
      → IsChain h head is evs
      → last_of is ≡ some t
      → Apart node is
      → IsChain (grown t n node ev h) head (is ++ node ∷ []) (evs ++ ev ∷ [])
  grown-IsChain ended last a = absurd (nothing_last last)
    where
      nothing_last : none ≡ some t → ⊥
      nothing_last x = cc
  grown-IsChain (linked {i = i} e nx apart ended) last (ne, _) =
      let same : i ≡ t = same_address last in
      linked (grown-last same e) refl (λ x. ne (sym x), tt)
        (linked (grown-new (λ x. ne (x ∙ sym same))) refl tt ended)
  grown-IsChain (linked {i = i} e nx apart (linked {i = i'} {is = is} e' nx' apart' c)) last
        (ne, a) =
      linked (grown-old i (Apart-last (i' ∷ is) apart last) (λ x. ne (sym x)) ∙ e) nx
        (Apart-end (i' ∷ is) apart (λ x. ne (sym x)))
        (grown-IsChain (linked e' nx' apart' c) last a)

last_of-end : (is : List ℕ) (node : ℕ) → last_of (is ++ node ∷ []) ≡ some node
last_of-end [] node = refl
last_of-end (i ∷ []) node = refl
last_of-end (i ∷ j ∷ is) node = last_of-end (j ∷ is) node

-- The last node of a chain.
last_node :
    {h : Store} {i : ℕ} {is : List ℕ} {evs : List SockEvent}
    → IsChain h (some i) is evs
    → (t : ℕ) × (n : Node) × (last_of is ≡ some t) × (h t ≡ some n)
last_node (linked e nx apart ended) = (_, _, refl, e)
last_node (linked e nx apart (linked e' nx' apart' c)) = last_node (linked e' nx' apart' c)

-- The nodes stand for more events; those of other sockets are as before.
pub record Pushed (h : Store) (is : List ℕ) (evs : List SockEvent) (node : ℕ) (h' : Store)
    (head tail : Option ℕ) : Type 0 where
  pub holds : HoldsEvents h' head tail (is ++ node ∷ []) evs
  pub others : (j : ℕ) → j ≢ node → Apart j is → h' j ≡ h j

push_to-Pushed :
    (node : ℕ) (ev : SockEvent) {h : Store} {head tail : Option ℕ} {is : List ℕ}
    {evs : List SockEvent}
    → IsChain h head is evs
    → tail ≡ last_of is
    → h node ≡ none
    → Returns
        (λ (h', head', tail'). Pushed h is (evs ++ ev ∷ []) node h' head' tail')
        (push_node node ev h head tail)
unfolding push_node
push_to-Pushed node ev {h} ended last free = returns (record {
  holds = record {
    chain = linked (store_at-same node (some (record { event = ev; next = none })) h) refl tt ended;
    last = refl;
  };
  others = λ j ne a. store_at-other node (some (record { event = ev; next = none })) h j ne;
})
push_to-Pushed node ev {h} {is = is} (linked {i = i} e nx apart c) last free =
    let chain = linked e nx apart c in
    let (t, n, is_last, at) = last_node chain in
    let new = IsChain-free node free chain in
    let ne = Apart-last is new is_last in
    rw (link_tail-grown h node ev at (last ∙ is_last) ne) (
      returns (record {
        holds = record {
          chain = grown-IsChain h node ev at chain is_last new;
          last = sym (last_of-end is node);
        };
        others = λ j other a. grown-old h node ev at j (Apart-last is a is_last) other;
      }))

-- At an address that is free, `push_event` ends without a fault; the nodes of the socket then stand for
-- its events with the new one behind them, and no node of another socket has changed.
pub push_node-Pushed :
    (node : ℕ) (ev : SockEvent) {h : Store} {head tail : Option ℕ} {is : List ℕ}
    {evs : List SockEvent}
    → HoldsEvents h head tail is evs
    → h node ≡ none
    → Returns
        (λ (h', head', tail'). Pushed h is (evs ++ ev ∷ []) node h' head' tail')
        (push_node node ev h head tail)
push_node-Pushed node ev holds free = push_to-Pushed node ev holds.chain holds.last free

abbrev AllFree : Store → List ℕ → Type 0
AllFree h [] = Unit {0}
AllFree h (i ∷ is) = (h i ≡ none) × AllFree h is

-- The nodes of a chain have been taken from their addresses, and nothing else.
pub record Freed (h : Store) (is : List ℕ) (h' : Store) : Type 0 where
  pub gone : AllFree h' is
  pub others : (j : ℕ) → Apart j is → h' j ≡ h j

-- Freeing the list of a socket ends without a fault: each of its nodes is freed once, no pointer to a
-- freed node is followed, and no other node is touched.
pub free_events_list-Freed :
    (fuel : ℕ) {h : Store} {head : Option ℕ} {is : List ℕ} {evs : List SockEvent}
    → length evs ≤ fuel
    → IsChain h head is evs
    → Returns (Freed h is) (free_events_list fuel h head)
unfolding free_events_list load_node
free_events_list-Freed fuel le ended = returns (record { gone = tt; others = λ j a. refl })
free_events_list-Freed zero le (linked e nx apart c) = absurd (omega arith)
free_events_list-Freed (suc fuel) {h} le (linked {i = i} e nx apart c) =
    rw (e, free_events_list, load_node, nx)
      (Returns-mono (free_events_list-Freed fuel (omega arith) (IsChain-elsewhere i none c apart))
        λ h' rest. record {
          gone = (rest.others i apart ∙ store_at-same i none h, rest.gone);
          others = λ j (ne, a). rest.others j a ∙ store_at-other i none h j ne;
        })
