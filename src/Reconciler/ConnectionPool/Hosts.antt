-- ===== src/Reconciler/ConnectionPool/Hosts.antt =====
-- Who is connected behind each operation of the pool.
use control_protocol.Prelude.{
  ℕ, ◌≡◌, refl, ap, inl, inr, true, false, ◌&&◌, not, Bool-cases, Option-cases, Option, none, some,
  List, [], ◌∷◌, if◌then◌else◌, arith,
}
use control_protocol.Prelude.Equality.{Comparable, ◌==◌}
use control_protocol.Prelude.Maps.{map_option, Map, lookup, contains, is_some, contains-keys}
use control_protocol.Errors.{Error, Result, ok, err}
use control_protocol.Reconciler.Nested.{
  get_in, changed_in, get_in-insert_in, get_in-absent, get_in-erase_found,
}
use control_protocol.Reconciler.ConnectionPool.{
  Called, connect_round, dialer_of, ClientServiceHolder, ConnectionPool, Options, set_difference,
  get_connected_hosts, hosts_of, remove_holder, remove_connection, put_holder, keep_client,
  start_client, dial_control_service, connect_all, disconnect_all, apply_wrappers,
}

-- The items of the difference are those of the first list that are not in the second.
pub contains-set_difference :
    {A : Type 0} ⦃e : Comparable A⦄ (x : A) (a b : List A)
    → contains x (set_difference a b) ≡ (contains x a && not (contains x b))
unfolding set_difference
contains-set_difference x [] b = refl
contains-set_difference ⦃e⦄ x (y ∷ a) b = elim (Bool-cases (y == x)) [
  | inl same ↦ ground (
    arith,
    same,
    contains-set_difference x a b,
    ap (λ z. contains z b) ((e.equal_iff y x).0 same),
  )
  | inr other ↦ ground (arith, other, contains-set_difference x a b)
]

module _ {K H V : Type 0} ⦃k : Comparable K⦄ ⦃h : Comparable H⦄ where
  abbrev pub holder_at : ConnectionPool K H V → K → H → Option (ClientServiceHolder V)
  holder_at cc key host = get_in cc.conns key host

  -- The context of the connection to a host.
  abbrev pub context_at : ConnectionPool K H V → K → H → Option ℕ
  context_at cc key host = map_option (λ holder. holder.cancel_fn) (holder_at cc key host)

  pub contains-get_connected_hosts :
      (cc : ConnectionPool K H V) (key : K) (host : H)
      → contains host (get_connected_hosts cc key) ≡ is_some (holder_at cc key host)
  unfolding get_connected_hosts hosts_of
  contains-get_connected_hosts cc key host = in_hosts (lookup key cc.conns)
    where
      in_hosts :
          (o : Option (Map H (ClientServiceHolder V)))
          → contains host (hosts_of o) ≡ is_some (elim o [ none ↦ none | some m ↦ lookup host m ])
      in_hosts none = refl
      in_hosts (some m) = contains-keys host m

  holder_at-remove_holder :
      (cc : ConnectionPool K H V) (key key' : K) (host host' : H)
      (m : Map H (ClientServiceHolder V)) (o : Option (ClientServiceHolder V))
      → lookup key cc.conns ≡ some m
      → lookup host m ≡ o
      → holder_at (remove_holder cc key host m o) key' host'
        ≡ changed_in cc.conns key host none key' host'
  unfolding remove_holder
  holder_at-remove_holder cc key key' host host' m none there gone =
      elim (Bool-cases (key == key' && host == host')) [
        | inl s ↦ ground (
          arith,
          s,
          there,
          gone,
          ap (λ a. lookup a cc.conns) ((k.equal_iff key key').0 (ground arith)),
          ap (λ b. lookup b m) ((h.equal_iff host host').0 (ground arith)),
        )
        | inr s ↦ ground (arith, s)
      ]
  holder_at-remove_holder cc key key' host host' m (some holder) there gone =
      get_in-erase_found cc.conns key key' host host' m there

  pub holder_at-remove_connection :
      (cc : ConnectionPool K H V) (key key' : K) (host host' : H)
      → holder_at (remove_connection cc key host) key' host'
        ≡ changed_in cc.conns key host none key' host'
  unfolding remove_connection
  holder_at-remove_connection cc key key' host host' = elim (Option-cases (lookup key cc.conns)) [
    | inl e ↦ rw (e, remove_connection) (get_in-absent cc.conns key key' host host' e)
    | inr (m, e) ↦
        rw (e, remove_connection)
          (holder_at-remove_holder cc key key' host host' m (lookup host m) e refl)
  ]

  pub holder_at-disconnect_all :
      (cc : ConnectionPool K H V) (key key' : K) (hosts : List H) (host' : H)
      → holder_at (disconnect_all cc key hosts) key' host'
        ≡ (if key == key' && contains host' hosts then none else holder_at cc key' host')
  unfolding disconnect_all
  holder_at-disconnect_all cc key key' [] host' = ground arith
  holder_at-disconnect_all cc key key' (host ∷ hosts) host' = ground (
    arith,
    holder_at-disconnect_all (remove_connection cc key host) key key' hosts host',
    holder_at-remove_connection cc key key' host host',
  )

  module _ {D : Type 0} (options : Options H V D) where
    -- What dialing does to the pool: an error leaves the connections, and a service takes its place.
    unfoldable pub Dialed : ConnectionPool K H V → K → H → ConnectionPool K H V × Result V → Type 0
    Dialed cc key host (cc', err e) = cc'.conns ≡ cc.conns
    Dialed cc key host (cc', ok svc) =
        (key' : K) (host' : H)
        → holder_at cc' key' host'
          ≡ changed_in cc.conns key host (some (record { service = svc; cancel_fn = cc.contexts }))
              key' host'

    pub dial-Dialed :
        (cc : ConnectionPool K H V) (key : K) (host : H)
        → Dialed cc key host (dial_control_service options cc key host)
    unfolding dial_control_service start_client keep_client put_holder Dialed
    dial-Dialed cc key host = started (dialer_of options cc.dials)
      where
        kept : (r : Result V) → Dialed cc key host (keep_client options cc key host r)
        kept (err e) = refl
        kept (ok svc) = λ key' host'.
            get_in-insert_in cc.conns key key' host host'
              (record { service = apply_wrappers options.wrappers svc; cancel_fn = cc.contexts })

        started : (r : Result D) → Dialed cc key host (start_client options cc key host r)
        started (err e) = refl
        started (ok dialer) = kept (options.start_control_client cc.contexts dialer host)

    abbrev pub Others : ConnectionPool K H V → K → List H → ConnectionPool K H V → Type 0
    Others cc key hosts cc' =
        (key' : K) (host' : H)
        → (key == key' && contains host' hosts) ≡ false
        → holder_at cc' key' host' ≡ holder_at cc key' host'

    -- The hosts that are dialed are connected, and the others as they were.
    abbrev pub Grown : ConnectionPool K H V → K → List H → ConnectionPool K H V → Type 0
    Grown cc key hosts cc' =
        (key' : K) (host' : H)
        → (key == key' && contains host' hosts) ≡ true
        → is_some (holder_at cc' key' host') ≡ true

    round-Others :
        (cc : ConnectionPool K H V) (key : K) (host : H) (hosts : List H)
        (r : ConnectionPool K H V × Result V)
        (rest : ConnectionPool K H V × List (Called H V) × Option Error)
        → Dialed cc key host r
        → Others r.0 key hosts rest.0
        → Others cc key (host ∷ hosts) (connect_round host r rest).0
    unfolding Dialed connect_round
    round-Others cc key host hosts (cc', err e) rest d o =
        λ key' host' n. ap (λ c. get_in c key' host') d
    round-Others cc key host hosts (cc', ok svc) rest d o =
        λ key' host' n. ground (arith, n, d key' host', o key' host')

    pub connect_all-Others :
        (cc : ConnectionPool K H V) (key : K) (hosts : List H)
        → Others cc key hosts (connect_all options cc key hosts).0
    unfolding connect_all
    connect_all-Others cc key [] = λ key' host' o. refl
    connect_all-Others cc key (host ∷ hosts) =
        let d = dial_control_service options cc key host in
        round-Others cc key host hosts d (connect_all options d.0 key hosts)
          (dial-Dialed cc key host) (connect_all-Others d.0 key hosts)

    round-Grown :
        (cc : ConnectionPool K H V) (key : K) (host : H) (hosts : List H)
        (r : ConnectionPool K H V × Result V)
        (rest : ConnectionPool K H V × List (Called H V) × Option Error)
        → Dialed cc key host r
        → (connect_round host r rest).2 ≡ none
        → Others r.0 key hosts rest.0
        → (rest.2 ≡ none → Grown r.0 key hosts rest.0)
        → Grown cc key (host ∷ hosts) (connect_round host r rest).0
    unfolding Dialed connect_round
    round-Grown cc key host hosts (cc', err e) rest d done o g = absurd (ground (arith, done))
    round-Grown cc key host hosts (cc', ok svc) rest d done o g =
        λ key' host' n. ground (arith, n, d key' host', o key' host', g done key' host')

    pub connect_all-Grown :
        (cc : ConnectionPool K H V) (key : K) (hosts : List H)
        → (connect_all options cc key hosts).2 ≡ none
        → Grown cc key hosts (connect_all options cc key hosts).0
    unfolding connect_all
    connect_all-Grown cc key [] h = λ key' host' o. ground (arith, o)
    connect_all-Grown cc key (host ∷ hosts) h =
        let d = dial_control_service options cc key host in
        round-Grown cc key host hosts d (connect_all options d.0 key hosts)
          (dial-Dialed cc key host) h (connect_all-Others d.0 key hosts)
          (connect_all-Grown d.0 key hosts)
