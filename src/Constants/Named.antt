-- ===== src/Constants/Named.antt =====
-- constants.c: the text that is printed for a constant is the name of a macro of that value.
use tcpsnitch.Base.{
  ℕ, ◌<◌, ◌≡◌, ◌≢◌, refl, ap, ◌∙◌, ℤ, pos, negsuc, Bool, true, false, none, some, inl, inr, List,
  [], ◌∷◌, ◌++◌, String, arith, Option-cases, ◌⊎◌, ◌&&◌, ltb, ◌==◌, ltb→lt, eqb→eq, eqb_ℤ,
  Bool-cases, if◌then◌else◌, length, subst, to_int,
}
use tcpsnitch.Bytes.{Text}
use tcpsnitch.Text.{codes, print_int, snprintf}
use tcpsnitch.Text.Paths.{take_all}
use tcpsnitch.Constants.{
  Headers, IntStrPair, str_size, add_if, add_each, search, alloc_string_from_cons, errnos,
  ioctl_requests, options_of, alloc_sock_domain_str, alloc_sock_type_str, alloc_sockopt_level,
  alloc_sockopt_name, alloc_fcntl_cmd_str, alloc_ioctl_request_str, alloc_errno_str,
}
use tcpsnitch.Constants.Tables.Errnos.{
  errnos_first, errnos_second, errnos_third, errnos_fourth, errnos_fifth, errnos_sixth,
}
use tcpsnitch.Constants.Tables.Ioctls.{
  ioctls_first, ioctls_second, ioctls_third, ioctls_fourth, ioctls_fifth,
}
use tcpsnitch.Constants.Tables.Options.{
  fcntl_cmds, socket_domains, socket_types, sockopt_levels, sol_socket_options, sol_tcp_options,
  sol_udp_options, sol_ip_options, sol_ipv6_options, sol_packet_options, sol_raw_options,
}

-- A predicate that holds of each entry of an array.
pub data Each {ℓ} (P : IntStrPair → Type ℓ) : List IntStrPair → Type ℓ where
  done_each : Each P []
  and_each : {p : IntStrPair} {map : List IntStrPair} → P p → Each P map → Each P (p ∷ map)

-- An entry that is made of a macro of the headers, its name whole in the entry.
pub data OfMacro (h : Headers) : IntStrPair → Type 0 where
  of_macro :
      (name : String) {value : ℤ} {str : Text}
      → h name ≡ some value
      → str ≡ codes name
      → length str < str_size
      → OfMacro h (record { cons = value; str = str })

-- What a constant is printed as: the whole name of a macro that the headers give this value, or, if
-- the array has no entry of it, its number.
pub data Printed (h : Headers) (map : List IntStrPair) (cons : ℤ) : Text → Type 0 where
  name_of :
      (name : String)
      → h name ≡ some cons
      → length (codes name) < str_size
      → Printed h map cons (codes name)
  number_of :
      Each (λ p. p.cons ≢ cons) map → Printed h map cons (snprintf str_size (print_int cons))

eqb_ℤ→eq : (a b : ℤ) → eqb_ℤ a b ≡ true → a ≡ b
eqb_ℤ→eq (pos a) (pos b) h = ap pos (eqb→eq a b h)
eqb_ℤ→eq (negsuc a) (negsuc b) h = ap negsuc (eqb→eq a b h)
eqb_ℤ→eq (pos a) (negsuc b) h = cc
eqb_ℤ→eq (negsuc a) (pos b) h = cc

eqb_ℤ_refl : (a : ℤ) → eqb_ℤ a a ≡ true
eqb_ℤ_refl (pos a) = ground arith
eqb_ℤ_refl (negsuc a) = ground arith

eqb_ℤ→ne : (a b : ℤ) → eqb_ℤ a b ≡ false → a ≢ b
eqb_ℤ→ne a b h e = cc (eqb_ℤ_refl b, subst (λ c. eqb_ℤ c b ≡ false) e h)

all_short : List String → Bool
all_short [] = true
all_short (name ∷ names) = ltb (length (codes name)) str_size && all_short names

&&-true : (a b : Bool) → (a && b) ≡ true → (a ≡ true) × (b ≡ true)
&&-true true b h = (refl, h)
&&-true false b h = cc

module _ {ℓ} {P : IntStrPair → Type ℓ} where
  Each-append : {a b : List IntStrPair} → Each P a → Each P b → Each P (a ++ b)
  Each-append done_each q = q
  Each-append (and_each p ps) q = and_each p (Each-append ps q)

  Each-if : {a b : List IntStrPair} (t : Bool) → Each P a → Each P b → Each P (if t then a else b)
  Each-if true p q = p
  Each-if false p q = q

module _ (h : Headers) where
  add_if-OfMacro :
      (guard name : String)
      → length (codes name) < str_size
      → Each (OfMacro h) (add_if h guard name)
  unfolding add_if
  add_if-OfMacro guard name short = elim (Option-cases (h guard)) [
    | inl e ↦ rw (e, add_if) done_each
    | inr (_, e) ↦ elim (Option-cases (h name)) [
      | inl none_e ↦ rw (e, none_e, add_if) done_each
      | inr (value, name_e) ↦
          let whole = take_all (codes name) str_size (omega arith) in
          rw (e, name_e, add_if) (and_each (of_macro name name_e whole (rw whole short)) done_each)
    ]
  ]

  add_each-OfMacro :
      (names : List String) → all_short names ≡ true → Each (OfMacro h) (add_each h names)
  unfolding add_each all_short
  add_each-OfMacro [] _ = done_each
  add_each-OfMacro (name ∷ names) short =
      let (a, b) = &&-true (ltb (length (codes name)) str_size) (all_short names) short in
      Each-append (add_if-OfMacro name name (ltb→lt _ _ a)) (add_each-OfMacro names b)

  search_lem :
      {map : List IntStrPair} (cons : ℤ)
      → Each (OfMacro h) map
      → ((search cons map ≡ none) × Each (λ p. p.cons ≢ cons) map)
        ⊎ ((name : String) × (search cons map ≡ some (codes name))
            × (h name ≡ some cons)
            × (length (codes name) < str_size))
  unfolding search
  search_lem cons done_each = inl (refl, done_each)
  search_lem cons (and_each (of_macro name {value} {str} e whole short) rest) =
      elim (Bool-cases (eqb_ℤ value cons)) [
        | inl same ↦ inr (
          name,
          rw (same, search) (ap some whole),
          e ∙ ap some (eqb_ℤ→eq value cons same),
          subst (λ t. length t < str_size) whole short,
        )
        | inr other ↦ elim (search_lem cons rest) [
          | inl (e, absent) ↦
              inl (rw (other, search) e, and_each (eqb_ℤ→ne value cons other) absent)
          | inr (n, e, d, s) ↦ inr (n, rw (other, search) e, d, s)
        ]
      ]

  -- The search in an array of macros of the headers.
  alloc_string_from_cons-Printed :
      {map : List IntStrPair} (cons : ℤ)
      → Each (OfMacro h) map
      → Printed h map cons (alloc_string_from_cons cons map)
  unfolding alloc_string_from_cons
  alloc_string_from_cons-Printed cons entries = elim (search_lem cons entries) [
    | inl (e, absent) ↦ rw (e, alloc_string_from_cons) (number_of absent)
    | inr (name, e, d, short) ↦
        rw (e, take_all (codes name) str_size (omega arith), alloc_string_from_cons)
          (name_of name d short)
  ]

  errnos-OfMacro : Each (OfMacro h) (errnos h)
  unfolding errnos all_short
  errnos-OfMacro =
      let first = add_each-OfMacro errnos_first refl in
      let second = Each-append first (add_each-OfMacro errnos_second refl) in
      let third = Each-append second (add_each-OfMacro errnos_third refl) in
      let fourth = Each-append third (add_each-OfMacro errnos_fourth refl) in
      let fifth = Each-append fourth (add_each-OfMacro errnos_fifth refl) in
      Each-append fifth (add_each-OfMacro errnos_sixth refl)

  ioctl_requests-OfMacro : Each (OfMacro h) (ioctl_requests h)
  unfolding ioctl_requests all_short
  ioctl_requests-OfMacro =
      let first = add_each-OfMacro ioctls_first refl in
      let second = Each-append first (add_each-OfMacro ioctls_second refl) in
      let third = Each-append second (add_each-OfMacro ioctls_third refl) in
      let fourth = Each-append third (add_each-OfMacro ioctls_fourth refl) in
      let odd = add_if-OfMacro "SIOCSIFXQLEN" "SIOCSIFTXQLEN" (omega arith) in
      Each-append (Each-append fourth odd) (add_each-OfMacro ioctls_fifth refl)

  options_of-OfMacro : (level : ℕ) → Each (OfMacro h) (options_of h level)
  unfolding options_of all_short
  options_of-OfMacro level = Each-if (level == 1) (add_each-OfMacro sol_socket_options refl) (
      Each-if (level == 6) (add_each-OfMacro sol_tcp_options refl) (
        Each-if (level == 17) (add_each-OfMacro sol_udp_options refl) (
          Each-if (level == 0) (add_each-OfMacro sol_ip_options refl) (
            Each-if (level == 41) (add_each-OfMacro sol_ipv6_options refl) (
              Each-if (level == 263) (add_each-OfMacro sol_packet_options refl) (
                Each-if (level == 255) (add_each-OfMacro (sol_raw_options ++ sol_ip_options) refl)
                  (add_each-OfMacro sol_socket_options refl)))))))

  -- The seven functions that print constants.
  pub record PrintsNames : Type 0 where
    pub domain :
        (d : ℕ) → Printed h (add_each h socket_domains) (to_int d) (alloc_sock_domain_str h d)
    pub type : (t : ℕ) → Printed h (add_each h socket_types) (to_int t) (alloc_sock_type_str h t)
    pub level : (l : ℕ) → Printed h (add_each h sockopt_levels) (to_int l) (alloc_sockopt_level h l)
    pub optname : (l o : ℕ) → Printed h (options_of h l) (to_int o) (alloc_sockopt_name h l o)
    pub cmd : (c : ℕ) → Printed h (add_each h fcntl_cmds) (to_int c) (alloc_fcntl_cmd_str h c)
    pub request : (r : ℕ) → Printed h (ioctl_requests h) (to_int r) (alloc_ioctl_request_str h r)
    pub error : (e : ℤ) → Printed h (errnos h) e (alloc_errno_str h e)

  -- Whatever the system's headers define, each of the seven functions that name a constant prints the
  -- whole name of a macro which the headers give this very value, so that the value can be read back
  -- from the name, or, if no entry of its array has the value, the value's decimal form.
  pub constants-PrintsNames : PrintsNames
  unfolding alloc_sock_domain_str alloc_sock_type_str alloc_sockopt_level alloc_sockopt_name
      alloc_fcntl_cmd_str alloc_ioctl_request_str alloc_errno_str all_short
  constants-PrintsNames = record {
    domain = λ d. alloc_string_from_cons-Printed _ (add_each-OfMacro socket_domains refl);
    type = λ t. alloc_string_from_cons-Printed _ (add_each-OfMacro socket_types refl);
    level = λ l. alloc_string_from_cons-Printed _ (add_each-OfMacro sockopt_levels refl);
    optname = λ l o. alloc_string_from_cons-Printed _ (options_of-OfMacro l);
    cmd = λ c. alloc_string_from_cons-Printed _ (add_each-OfMacro fcntl_cmds refl);
    request = λ r. alloc_string_from_cons-Printed _ ioctl_requests-OfMacro;
    error = λ e. alloc_string_from_cons-Printed _ errnos-OfMacro;
  }
