-- ===== src/Json/WholeOptions.antt =====
-- json_builder.c: the values of options whose blocks are long enough are built without a fault.
use tcpsnitch.Base.{
  ℕ, ◌≤◌, ◌≡◌, refl, subst, Bool, true, false, Option, none, List, String, arith, Bool-cases, inl,
  inr, ◌==◌, ◌||◌, if◌then◌else◌, length,
}
use tcpsnitch.Outcome.{Outcome, done, Returns, returns, Returns-bind, bind_outcome}
use tcpsnitch.Bytes.{Text}
use tcpsnitch.Event.{Sockopt}
use tcpsnitch.Event.Whole.{
  FitsOption, value_size, socket_size, tcp_size, ip_size, ipv6_size, mreqn_size,
}
use tcpsnitch.Json.{Jansson, Names, latest, nested}
use tcpsnitch.Json.Sockopts.{
  int_value, bool_value, build_timeval, build_linger, build_ip_mreqn, build_ipv6_mreq,
  build_sol_socket_optval, build_sol_tcp_optval, build_sol_ip_optval, build_sol_ipv6_optval,
  build_optval, add_sockopt,
}
use tcpsnitch.Json.Whole.{Total, bytes_at-Total, read_int-Total, read_uint-Total, read_long-Total}

-- A choice that asks for as many bytes as the branch that is taken.
choose {ℓ} :
    {A : Type ℓ} {x y : Outcome A} {m n l : ℕ} (b : Bool)
    → (if b then m else n) ≤ l
    → (m ≤ l → Total x)
    → (n ≤ l → Total y)
    → Total (if b then x else y)
choose true h p q = p h
choose false h p q = q h

module _ (j : Jansson) where
  build_timeval-Total : (b : Text) → 16 ≤ length b → Total (build_timeval j b)
  unfolding build_timeval
  build_timeval-Total b h =
      Returns-bind (read_long-Total b 0 (omega arith))
        (λ _ _. Returns-bind (read_long-Total b 8 (omega arith)) (λ _ _. returns tt))

  build_linger-Total : (b : Text) → 8 ≤ length b → Total (build_linger j b)
  unfolding build_linger
  build_linger-Total b h =
      Returns-bind (read_int-Total b 0 (omega arith))
        (λ _ _. Returns-bind (read_int-Total b 4 (omega arith)) (λ _ _. returns tt))

  int_value-Total : (b : Text) → 4 ≤ length b → Total (int_value j b)
  int_value-Total b h = Returns-bind (read_int-Total b 0 h) (λ _ _. returns tt)

  bool_value-Total : (b : Text) → 4 ≤ length b → Total (bool_value j b)
  bool_value-Total b h = Returns-bind (read_int-Total b 0 h) (λ _ _. returns tt)

  build_sol_socket_optval-Total :
      (o : Sockopt) → socket_size o.optname ≤ length o.optval → Total (build_sol_socket_optval j o)
  unfolding build_sol_socket_optval
  build_sol_socket_optval-Total o h =
      choose (o.optname == 20 || o.optname == 21) h
        (λ h. Returns-bind (build_timeval-Total o.optval h) (λ _ _. returns tt))
        λ h.
          choose (o.optname == 13) h
            (λ h. Returns-bind (build_linger-Total o.optval h) (λ _ _. returns tt))
            λ h.
              choose (o.optname == 8 || (o.optname == 7 || o.optname == 4)) h
                (int_value-Total o.optval)
                λ h.
                  choose (o.optname == 9 || (o.optname == 1 || (o.optname == 2 || o.optname == 6)))
                    h (bool_value-Total o.optval) (λ _. returns tt)

  build_sol_tcp_optval-Total :
      (o : Sockopt) → tcp_size o.optname ≤ length o.optval → Total (build_sol_tcp_optval j o)
  unfolding build_sol_tcp_optval
  build_sol_tcp_optval-Total o h =
      choose (o.optname == 5 || o.optname == 4) h (int_value-Total o.optval)
        λ h. choose (o.optname == 1) h (bool_value-Total o.optval) (λ _. returns tt)

  module _ (names : Names) where
    build_ip_mreqn-Total :
        (b : Text) (includes_ifindex : Bool) (fd : ℕ)
        → (if includes_ifindex then 12 else 8) ≤ length b
        → Total (build_ip_mreqn j names b includes_ifindex fd)
    unfolding build_ip_mreqn
    build_ip_mreqn-Total b true fd h = Returns-bind (bytes_at-Total b 0 4 (omega arith)) λ _ _.
        Returns-bind (bytes_at-Total b 4 4 (omega arith)) λ _ _.
          Returns-bind {P = λ _. Unit {0}} (Returns-bind (read_int-Total b 8 h) (λ _ _. returns tt))
            (λ _ _. returns tt)
    build_ip_mreqn-Total b false fd h =
        Returns-bind (bytes_at-Total b 0 4 (omega arith))
          λ _ _. Returns-bind (bytes_at-Total b 4 4 h) (λ _ _. returns tt)

    build_ipv6_mreq-Total :
        (b : Text) (fd : ℕ) → 20 ≤ length b → Total (build_ipv6_mreq j names b fd)
    unfolding build_ipv6_mreq
    build_ipv6_mreq-Total b fd h =
        Returns-bind (bytes_at-Total b 0 16 (omega arith))
          (λ _ _. Returns-bind (read_uint-Total b 16 h) (λ _ _. returns tt))

    mreqn_value-Total :
        (o : Sockopt)
        → mreqn_size o.optlen ≤ length o.optval
        → Total (
            bind_outcome
              (build_ip_mreqn j names o.optval (o.optlen == 12) o.fd)
              (λ m. done (nested j m)))
    mreqn_value-Total o h =
        Returns-bind (build_ip_mreqn-Total o.optval (o.optlen == 12) o.fd h) (λ _ _. returns tt)

    build_sol_ip_optval-Total :
        (o : Sockopt) → ip_size o ≤ length o.optval → Total (build_sol_ip_optval j names o)
    unfolding build_sol_ip_optval
    build_sol_ip_optval-Total o h =
        choose (o.optname == 35 || o.optname == 36) h (mreqn_value-Total o) λ h.
          choose (o.optname == 32) h
            (λ h.
              choose (o.getsockopt || o.optlen == 4) h
                (λ h. Returns-bind (bytes_at-Total o.optval 0 4 h) (λ _ _. returns tt))
                (mreqn_value-Total o))
            λ h.
              choose (o.optname == 33) h
                (λ h. Returns-bind (bytes_at-Total o.optval 0 1 h) (λ _ _. returns tt))
                λ h. choose (o.optname == 34) h (bool_value-Total o.optval) (λ _. returns tt)

    build_sol_ipv6_optval-Total :
        (o : Sockopt)
        → ipv6_size o.optname ≤ length o.optval
        → Total (build_sol_ipv6_optval j names o)
    unfolding build_sol_ipv6_optval
    build_sol_ipv6_optval-Total o h =
        choose (o.optname == 20 || o.optname == 21) h
          (λ h. Returns-bind (build_ipv6_mreq-Total o.optval o.fd h) (λ _ _. returns tt))
          λ h. choose (o.optname == 18) h (int_value-Total o.optval) λ h.
            choose (o.optname == 17) h
              (λ h. Returns-bind (read_int-Total o.optval 0 h) (λ _ _. returns tt))
              λ h.
                choose (o.optname == 26 || o.optname == 19) h (bool_value-Total o.optval)
                  (λ _. returns tt)

    build_optval-Total :
        (o : Sockopt) → value_size o ≤ length o.optval → Total (build_optval j names o)
    unfolding build_optval
    build_optval-Total o h = choose (o.level == 1) h (build_sol_socket_optval-Total o) λ h.
        choose (o.level == 6) h (build_sol_tcp_optval-Total o) λ h.
          choose (o.level == 0) h (build_sol_ip_optval-Total o)
            λ h. choose (o.level == 41) h (build_sol_ipv6_optval-Total o) (λ _. returns tt)

    -- The entries of an option, none of which is called `bytes` or `state`.
    abbrev pub IsQuiet : List (String × Option j.Json) → Type 0
    IsQuiet entries =
        (latest j "bytes" entries none ≡ none) × (latest j "state" entries none ≡ none)

    pub add_sockopt-Quiet : (o : Sockopt) → FitsOption o → Returns IsQuiet (add_sockopt j names o)
    unfolding add_sockopt
    add_sockopt-Quiet o h = elim (Bool-cases (o.optlen == 0)) [
      | inl e ↦ rw (e, add_sockopt) (returns (refl, refl))
      | inr e ↦
          let fits : value_size o ≤ length o.optval =
            subst (λ b. (if b then 0 else value_size o) ≤ length o.optval) e h in
          rw (e, add_sockopt)
            (Returns-bind {P = IsQuiet}
              (Returns-bind (build_optval-Total o fits) (λ _ _. returns (refl, refl)))
              (λ _ q. returns q))
    ]
