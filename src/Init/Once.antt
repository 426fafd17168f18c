-- ===== src/Init/Once.antt =====
-- `init_tcpsnitch` of init.c, the first time and later.
use tcpsnitch.Base.{
  ◌≡◌, refl, sym, ap, subst, ◌∙◌, Bool, true, false, Option, none, some, eqb_ℤ, pos, if◌then◌else◌,
  Bool-cases, inl, inr,
}
use tcpsnitch.Outcome.{done, Returns, returns, Returns-bind, Returns-mono, eq_of_Returns}
use tcpsnitch.Bytes.{Text}
use tcpsnitch.Kernel.{Kernel}
use tcpsnitch.World.{World, Options, M, pure, ◌>>=◌, ◌>>◌, get_world, modify_world}
use tcpsnitch.Init.{
  init_tcpsnitch, first_init, set_up, with_logs_dir, init_logs, open_log, get_options,
  open_std_streams, start_json_dumper_thread,
}
use tcpsnitch.Init.LogsDir.{IsSane, create_logs_dir-total}

-- What the start of the library leaves alone.
pub record Untouched (w v : World) : Type 0 where
  pub registry : v.registry ≡ w.registry
  pub count : v.connections_count ≡ w.connections_count
  pub trace : v.trace ≡ w.trace
  pub alive : w.logs_dir_freed ≡ false → v.logs_dir_freed ≡ false

pub Untouched-refl : (w : World) → Untouched w w
Untouched-refl w = record { registry = refl; count = refl; trace = refl; alive = λ e. e }

pub Untouched-trans : {u v w : World} → Untouched u v → Untouched v w → Untouched u w
Untouched-trans p q = record {
  registry = q.registry ∙ p.registry;
  count = q.count ∙ p.count;
  trace = q.trace ∙ p.trace;
  alive = λ e. q.alive (p.alive e);
}

-- A function that returns and leaves these alone, from every state.
abbrev pub Calm : {A : Type 0} → Kernel → M A → Type 0
Calm k m = (w : World) → Returns (λ (_, v). Untouched w v) (m k w)

pub Calm-bind :
    {A B : Type 0} {k : Kernel} (m : M A) (f : A → M B)
    → Calm k m
    → ((a : A) → Calm k (f a))
    → Calm k (m >>= f)
Calm-bind m f h g w =
    Returns-bind (h w) λ (a, v) p. Returns-mono (g a v) (λ (_, u) q. Untouched-trans p q)

pub Calm-pure : {A : Type 0} (k : Kernel) (a : A) → Calm k (pure a)
Calm-pure k a w = returns (Untouched-refl w)

pub Calm-if :
    {A : Type 0} (k : Kernel) (b : Bool) (m n : M A)
    → Calm k m
    → Calm k n
    → Calm k (if b then m else n)
Calm-if k true m n p q = p
Calm-if k false m n p q = q

module _ (k : Kernel) where
  start_json_dumper_thread-Calm : Calm k start_json_dumper_thread
  unfolding start_json_dumper_thread
  start_json_dumper_thread-Calm w = elim (Bool-cases k.pthread_create) [
    | inl b ↦
        rw b (returns (record { registry = refl; count = refl; trace = refl; alive = λ e. e }))
    | inr b ↦ rw b (returns (Untouched-refl w))
  ]

  open_log-Calm : (o : Option Text) (p : Options) → Calm k (open_log o p)
  unfolding open_log
  open_log-Calm none p w = Calm-pure k tt w
  open_log-Calm (some path) p w =
      returns (record { registry = refl; count = refl; trace = refl; alive = λ e. e })

  with_logs_dir-Calm : (o : Option Text) → Calm k (with_logs_dir o)
  unfolding with_logs_dir init_logs
  with_logs_dir-Calm none = Calm-pure k tt
  with_logs_dir-Calm (some path) =
      Calm-bind init_logs
        (λ _. get_world >>= λ w.
          if eqb_ℤ w.options.opt_t (pos 0) then pure tt else start_json_dumper_thread)
        (λ w. open_log-Calm _ w.options w)
        (λ _ w.
          Calm-if k (eqb_ℤ w.options.opt_t (pos 0)) _ _ (Calm-pure k tt)
            start_json_dumper_thread-Calm w)

  set_up-Calm : IsSane k → (o : Option Text) → Calm k (set_up o)
  unfolding set_up
  set_up-Calm sane none w = Calm-pure k tt w
  set_up-Calm sane (some d) w =
      let (path, e, _) = eq_of_Returns (create_logs_dir-total k sane d) in
      rw e (
        Returns-mono (with_logs_dir-Calm path _) (λ (_, v) q. record {
          registry = q.registry;
          count = q.count;
          trace = q.trace;
          alive = λ _. q.alive refl;
        }))

  first_init-Calm : IsSane k → Calm k first_init
  unfolding first_init open_std_streams get_options
  first_init-Calm sane w = Returns-mono (set_up-Calm sane _ _) (λ (_, v) q. record {
    registry = q.registry;
    count = q.count;
    trace = q.trace;
    alive = q.alive;
  })

  -- Where the surroundings are sane, the start of the library ends without a fault, whatever the
  -- variables of the environment hold; it leaves the table of sockets, their numbering and the lines
  -- that are written alone, does not free the directory's name, and marks the library as initialized.
  pub init_tcpsnitch-Untouched :
      IsSane k
      → (w : World)
      → Returns (λ (_, v). Untouched w v × (v.initialized ≡ true)) (init_tcpsnitch k w)
  unfolding init_tcpsnitch
  init_tcpsnitch-Untouched sane w =
      Returns-bind (Calm-if k w.initialized _ _ (Calm-pure k tt) (first_init-Calm sane) w)
        λ (_, v) p. returns (
          record { registry = p.registry; count = p.count; trace = p.trace; alive = p.alive },
          refl,
        )

-- Once the library is initialized, `init_tcpsnitch` changes nothing.
pub init_tcpsnitch-again :
    (k : Kernel) (w : World) → w.initialized ≡ true → init_tcpsnitch k w ≡ done (tt, w)
unfolding init_tcpsnitch
init_tcpsnitch-again k w e =
    subst (λ b. (pure w >>= λ _. ((if b then pure tt else first_init) >> mark)) k w ≡ done (tt, w))
      (sym e) (ap (λ b. done (tt, record w { initialized = b })) (sym e))
  where
    mark : M (Unit {0})
    mark = modify_world (λ v. record v { initialized = true })
