-- ===== src/Spec/Dump.antt =====
-- What becomes of the events of a socket that is written out (sock_events.c).
use tcpsnitch.Base.{
  ℕ, ◌≡◌, refl, sym, ap, ◌∙◌, ℤ, Bool, true, false, Option, none, some, List, [], ◌∷◌, ◌++◌, map,
  append-nil, append_assoc, Bool-cases, Option-cases, inl, inr,
}
use tcpsnitch.Outcome.{done, Returns, returns, Returns-bind, Returns-mono}
use tcpsnitch.Bytes.{Text}
use tcpsnitch.Text.{decimal, codes, alloc_concat_path}
use tcpsnitch.Text.Paths.{alloc_file_name-path}
use tcpsnitch.Event.{SockEvent, Socket}
use tcpsnitch.Kernel.{Kernel}
use tcpsnitch.World.{World}
use tcpsnitch.Sockets.{
  dump_loop, write_lines, dump_events_as_json, alloc_json_path_str, stop_switch, stop_capture,
  dump_and_free, free_and_dump_socket,
}
use tcpsnitch.Spec.{Abs, with_socket, Shows}
use tcpsnitch.Spec.Table.{remove-Shows}

-- What the code relies on: the JSON library makes a text of every event.
abbrev pub Serialises : Kernel → Type 0
Serialises k = (ev : SockEvent) → k.json_dumps ev ≡ true

-- The events as lines of the file at `path`.
abbrev pub lines_of : Text → List SockEvent → List (Text × SockEvent)
lines_of path evs = map (λ ev. (path, ev)) evs

-- The file of the socket with the number `id` in the directory of the traces.
abbrev pub file_of : Option Text → ℕ → Option Text
file_of dir id = alloc_concat_path dir (some (decimal id ++ codes ".json"))

-- Whether the file of a number can be had.
unfoldable pub opens : Kernel → Option Text → ℕ → Bool
opens k dir id = elim (file_of dir id) [ none ↦ false | some path ↦ k.fopen path ]

-- What writing out `s` has done: all its events are lines of its file, in their order, and its list is
-- empty; or the file cannot be had and nothing has changed.
pub data Written (k : Kernel) (dir : Option Text) (s : Socket) (before : List (Text × SockEvent))
    : List (Text × SockEvent) → Socket → Type 0 where
  written :
      (path : Text)
      → file_of dir s.id ≡ some path
      → Written k dir s before (before ++ lines_of path s.events) (record s { events = [] })
  no_file : opens k dir s.id ≡ false → Written k dir s before before s

json_path-alive :
    (w : World) (s : Socket)
    → w.logs_dir_freed ≡ false
    → alloc_json_path_str w s ≡ done (file_of w.logs_dir_path s.id)
unfolding alloc_json_path_str
json_path-alive w s e =
    let path = alloc_file_name-path w.logs_dir_path s.id (codes ".json") in rw (e, path) refl

module _ (k : Kernel) (json : Serialises k) where
  -- Where every event can be made a JSON text, the loop comes to the end of the list: every event
  -- becomes a line of the file, in its order, behind the lines before.
  pub dump_loop-all :
      (path : Text) (freed : Bool) (evs : List SockEvent) (lines : List (Text × SockEvent))
      → dump_loop k path freed evs lines ≡ done (true, lines ++ lines_of path evs)
  unfolding dump_loop
  dump_loop-all path freed [] lines = ap (λ l. done (true, l)) (sym (append-nil lines))
  dump_loop-all path freed (ev ∷ evs) lines = rw (json ev) (
      dump_loop-all path true evs (lines ++ (path, ev) ∷ [])
      ∙ ap (λ l. done (true, l)) (append_assoc lines ((path, ev) ∷ []) (lines_of path evs)))

  write_lines-all :
      (path : Text) (s : Socket) (w : World)
      → write_lines path s k w
        ≡ done (record s { events = [] }, record w { trace = w.trace ++ lines_of path s.events })
  unfolding write_lines
  write_lines-all path s w = rw (dump_loop-all path false s.events w.trace, write_lines) refl

  -- Writing out a socket adds to the lines and touches nothing else.
  pub dump_events-Written :
      (s : Socket) (w : World)
      → w.logs_dir_freed ≡ false
      → Returns
          (λ (t, v).
            (after : List (Text × SockEvent)) × Written k w.logs_dir_path s w.trace after t
            × (v ≡ record w { trace = after }))
          (dump_events_as_json s k w)
  unfolding dump_events_as_json opens
  dump_events-Written s w alive =
      rw (json_path-alive w s alive) (elim (Option-cases (file_of w.logs_dir_path s.id)) [
        | inl e ↦ rw e (returns (_, no_file (rw (e, opens) refl), refl))
        | inr (path, e) ↦ rw e (elim (Bool-cases (k.fopen path)) [
          | inl o ↦
              rw (o, write_lines-all path s w)
                (returns (w.trace ++ lines_of path s.events, written path e, refl))
          | inr o ↦ rw o (returns (_, no_file (rw (e, o, opens) refl), refl))
        ])
      ])

  dump_events-Shows :
      {a : Abs} {w : World} (s : Socket)
      → Shows a w
      → Returns
          (λ (t, v).
            (after : List (Text × SockEvent)) × Written k v.logs_dir_path s a.lines after t
            × Shows (record a { lines = after }) v)
          (dump_events_as_json s k w)
  dump_events-Shows {a} {w} s shows =
      Returns-mono (dump_events-Written s w shows.alive) (λ (t, v) (after, how, e). (
        after,
        rw e (rw⁻¹ shows.lines how),
        rw e (record {
          idle = shows.idle;
          table = shows.table;
          count = shows.count;
          lines = refl;
          alive = shows.alive;
        }),
      ))

  stop_switch-Shows :
      {a : Abs} {w : World} (flag : Option ℕ) (rtt : ℤ)
      → Shows a w
      → Returns (λ (_, v). Shows a v) (stop_switch flag rtt k w)
  unfolding stop_switch stop_capture
  stop_switch-Shows none rtt s = returns s
  stop_switch-Shows (some flag) rtt s =
      returns (record {
        idle = s.idle;
        table = s.table;
        count = s.count;
        lines = s.lines;
        alive = s.alive;
      })

  -- A socket that is known leaves the table, and what it has recorded goes to its file.
  pub free_and_dump-Shows :
      {a : Abs} {w : World} (fd : ℕ) {s : Socket}
      → a.table fd ≡ some s
      → Shows a w
      → Returns
          (λ (_, v).
            (after : List (Text × SockEvent)) × (t : Socket) × Written k v.logs_dir_path s a.lines
              after t
            × Shows (record (with_socket fd none a) { lines = after }) v)
          (free_and_dump_socket fd k w)
  unfolding free_and_dump_socket dump_and_free
  free_and_dump-Shows fd {s} e shows = Returns-bind (remove-Shows k shows fd) λ (o, w1) (was, s1).
      rw (was, e)
        (Returns-bind (stop_switch-Shows s.capture_switch s.rtt s1) λ (_, w2) s2.
          Returns-bind (dump_events-Shows s s2)
            λ (t, w3) (after, how, s3). returns (after, t, how, s3))
