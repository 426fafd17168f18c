-- ===== src/Spec/Selected.antt =====
-- What `select` of libc_overrides.c records.
use tcpsnitch.Base.{
  ℕ, zero, suc, ◌+◌, ◌≡◌, refl, ap, ◌∙◌, subst, ◌||◌, ◌&&◌, ℤ, pos, negsuc, Bool, true, false,
  Option, none, some, List, [], ◌∷◌, ◌++◌, if◌then◌else◌, Bool-cases, inl, inr,
}
use tcpsnitch.Outcome.{Returns, returns, Returns-bind, Returns-mono}
use tcpsnitch.Event.{SelectEvents}
use tcpsnitch.Kernel.{Kernel}
use tcpsnitch.CLib.{is_inet_socket}
use tcpsnitch.World.{World, pure}
use tcpsnitch.Init.LogsDir.{IsSane}
use tcpsnitch.Tracer.IoHandlers.{sock_ev_select}
use tcpsnitch.Overrides.{
  if_inet, FdSets, fd_isset, events_of, any_event, requested, select_loop, select_override,
}
use tcpsnitch.Spec.{setting_of, Abs, Shows}
use tcpsnitch.Spec.Dump.{Serialises}
use tcpsnitch.Spec.Calls.{Call, run, on_select}
use tcpsnitch.Spec.Effects.{IsLegal}
use tcpsnitch.Spec.Observed.{Observed, Seen, Seen-Observed, Seen-none, Seen-trans, if_inet-Seen}

-- Whether a descriptor is in a set that the program has given.
abbrev in_set : Option (ℕ → Bool) → ℕ → Bool
in_set (some set) d = set d
in_set none d = false

-- In which of the three sets a descriptor is.
abbrev pub members : FdSets → ℕ → SelectEvents
members s d = record {
  read = in_set s.readfds d;
  write = in_set s.writefds d;
  except = in_set s.exceptfds d;
}

-- Whether a descriptor is an Internet socket that is in one of the sets.
abbrev pub is_chosen : (k : Kernel) (o : ℤ) (s : FdSets) (d : ℕ) → Bool
is_chosen k o s d =
    is_inet_socket k o d && (in_set s.readfds d || (in_set s.writefds d || in_set s.exceptfds d))

-- A call, if it is made.
abbrev only_if : Bool → ℕ × Call → List (ℕ × Call)
only_if b x = if b then x ∷ [] else []

-- The calls of `select` for `n` descriptors from `fd` on: those that are chosen.
abbrev pub select_calls : ℕ → ℕ → (ℕ → Bool) → (ℕ → Call) → List (ℕ × Call)
select_calls zero fd chosen c = []
select_calls (suc n) fd chosen c =
    only_if (chosen fd) (fd, c fd) ++ select_calls n (fd + 1) chosen c

-- The same calls in both ways of telling which are made.
select_calls-same :
    (n fd : ℕ) (x y : ℕ → Bool) (c d : ℕ → Call)
    → ((i : ℕ) → only_if (x i) (i, c i) ≡ only_if (y i) (i, d i))
    → select_calls n fd x c ≡ select_calls n fd y d
select_calls-same zero fd x y c d same = refl
select_calls-same (suc n) fd x y c d same =
    ap (λ l. l ++ select_calls n (fd + 1) x c) (same fd)
    ∙ ap (λ l. only_if (y fd) (fd, d fd) ++ l) (select_calls-same n (fd + 1) x y c d same)

module _ (k : Kernel) (sane : IsSane k) (json : Serialises k) where
  if_inet-quiet :
      {a : Abs} {w : World} (fd : ℤ)
      → Shows a w
      → Returns (λ (_, v). Seen k [] a w v) (if_inet fd (λ d. pure tt) k w)
  unfolding if_inet
  if_inet-quiet (negsuc n) s = returns (Seen-none s)
  if_inet-quiet {w = w} (pos fd) s = elim (Bool-cases (is_inet_socket k w.options.opt_c fd)) [
    | inl e ↦ rw e (returns (Seen-none s))
    | inr e ↦ rw e (returns (Seen-none s))
  ]

  select_round-Seen :
      {a : Abs} {w : World} (fd : ℕ) (asked : Bool) (c : ℕ → Call)
      → IsLegal (c fd)
      → Shows a w
      → Returns
          (λ (_, v). Seen k (only_if asked (fd, c fd)) a w v)
          (if_inet (pos fd) (λ d. if asked then run (c d) else pure tt) k w)
  select_round-Seen fd true c legal s =
      if_inet-Seen k sane json (pos fd) c (λ d e. rw (pos_of e) at legal) s
    where
      pos_of : {i j : ℕ} → pos i ≡ pos j → i ≡ j
      pos_of h = cc
  select_round-Seen fd false c legal s = if_inet-quiet (pos fd) s

  select_loop-Seen :
      (n fd : ℕ) (req : ℕ → SelectEvents) (after : FdSets) (ret err : ℤ) (timeout : Option (ℤ × ℤ))
      {a : Abs} {w : World}
      → Shows a w
      → Returns
          (λ (_, v).
            Seen k
              (select_calls n fd
                (λ d. any_event (req d))
                (λ d. on_select d ret err (req d) (events_of after d) timeout))
              a
              w
              v)
          (select_loop n fd req after
            (λ d asked got. sock_ev_select d ret err asked got timeout)
            k
            w)
  unfolding select_loop if_inet
  select_loop-Seen zero fd req after ret err timeout s = returns (Seen-none s)
  select_loop-Seen (suc n) fd req after ret err timeout s =
      Returns-bind
        (select_round-Seen fd (any_event (req fd))
          (λ d. on_select d ret err (req d) (events_of after d) timeout) tt s)
        λ (_, w1) (b, first, s1, t1).
          Returns-mono (select_loop-Seen n (fd + 1) req after ret err timeout s1)
            (λ (_, v) rest. Seen-trans first t1 rest)

  fd_isset-in_set : (o : Option (ℕ → Bool)) (d : ℕ) → fd_isset o d ≡ in_set o d
  fd_isset-in_set none d = refl
  fd_isset-in_set (some set) d = refl

  events_of-members : (s : FdSets) (d : ℕ) → events_of s d ≡ members s d
  unfolding events_of
  events_of-members s d = λ i. record {
    read = fd_isset-in_set s.readfds d i;
    write = fd_isset-in_set s.writefds d i;
    except = fd_isset-in_set s.exceptfds d i;
  }

  -- What the code asks about is what is in the sets.
  requested-chosen :
      (w : World) (before after : FdSets) (timeout : Option (ℤ × ℤ)) (ret err : ℤ) (d : ℕ)
      → only_if
          (any_event (requested k w before d))
          (d, on_select d ret err (requested k w before d) (events_of after d) timeout)
        ≡ only_if
            (is_chosen k w.options.opt_c before d)
            (d, on_select d ret err (members before d) (members after d) timeout)
  unfolding requested
  requested-chosen w before after timeout ret err d =
      elim (Bool-cases (is_inet_socket k w.options.opt_c d)) [
        | inl e ↦ rw (e, events_of-members before d, events_of-members after d) refl
        | inr e ↦ rw e refl
      ]

  -- `select` gives the program the result of the original function, and records the call once for each
  -- Internet socket below `nfds`, in the order of the descriptors, that one of the three sets holds
  -- before the call, with the sets that hold it before the call and those that hold it after it; where
  -- the surroundings are sane and every event can be made a JSON text.
  pub select-Observed :
      {a : Abs} {w : World} (nfds : ℕ) (before after : FdSets) (timeout : Option (ℤ × ℤ))
      (ret err : ℤ)
      → Shows a w
      → Returns
          (λ (x, v).
            (x.value ≡ ret)
            × ((b : Abs) × Observed k
                  (setting_of true v)
                  (select_calls nfds 0
                    (is_chosen k w.options.opt_c before)
                    (λ d. on_select d ret err (members before d) (members after d) timeout))
                  a
                  b
                × Shows b v))
          (select_override nfds before after timeout ret err k w)
  unfolding select_override
  select-Observed {a} {w} nfds before after timeout ret err s =
      Returns-bind (select_loop-Seen nfds 0 (requested k w before) after ret err timeout s)
        λ (_, v) p. returns (
          refl,
          Seen-Observed (
              subst (λ cs. Seen k cs a w v)
                (select_calls-same nfds 0 _ _ _ _ (requested-chosen w before after timeout ret err))
                p),
        )
