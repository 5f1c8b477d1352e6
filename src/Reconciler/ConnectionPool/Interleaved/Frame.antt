-- ===== src/Reconciler/ConnectionPool/Interleaved/Frame.antt =====
-- What a goroutine that works under other keys leaves of a key.
use control_protocol.Prelude.{
  ◌≡◌, refl, ap, ◌∙◌, inl, inr, true, false, Option-cases, [], ◌∷◌, arith,
}
use control_protocol.Prelude.Equality.{Comparable, ◌==◌}
use control_protocol.Prelude.Maps.{lookup, lookup-insert, lookup-erase, erase}
use control_protocol.Errors.{Result, ok, err}
use control_protocol.Reconciler.Nested.{put_or_delete}
use control_protocol.Reconciler.ConnectionPool.{
  ClientServiceHolder, ConnectionPool, Options, remove_holder, remove_connection,
  remove_all_connections, put_holder, dialer_of,
}
use control_protocol.Reconciler.ConnectionPool.Interleaved.{
  PoolTask, starting, connecting, holding, disconnecting, dialing, storing, removing, removing_all,
  closing, finished, started_client, generated_dialer, begin_dial, after_dial, cannot_reconcile,
  advance_task,
}

module _ {K H V : Type 0} ⦃k : Comparable K⦄ ⦃h : Comparable H⦄ where
  -- The goroutine does nothing under the key.
  abbrev pub Avoids : K → PoolTask K H V → Type 0
  Avoids key (starting key' want) = (key' == key) ≡ false
  Avoids key (connecting key' new old) = (key' == key) ≡ false
  Avoids key (holding key' host holder new old) = (key' == key) ≡ false
  Avoids key (disconnecting key' old) = (key' == key) ≡ false
  Avoids key (dialing key' host) = (key' == key) ≡ false
  Avoids key (storing key' host holder) = (key' == key) ≡ false
  Avoids key (removing key' host) = (key' == key) ≡ false
  Avoids key (removing_all key') = (key' == key) ≡ false
  Avoids key closing = ◌≡◌ true false
  Avoids key (finished r) = Unit {0}

  -- The connections under the key are the same.
  abbrev pub SameAt : K → ConnectionPool K H V → ConnectionPool K H V → Type 0
  SameAt key cc cc' = lookup key cc'.conns ≡ lookup key cc.conns

  put_holder-SameAt :
      (cc : ConnectionPool K H V) (key key' : K) (host : H) (holder : ClientServiceHolder V)
      → (key' == key) ≡ false
      → SameAt key cc (put_holder cc key' host holder)
  unfolding put_holder
  put_holder-SameAt cc key key' host holder n =
      lookup-insert key' key _ cc.conns ∙ ground (arith, n)

  remove_connection-SameAt :
      (cc : ConnectionPool K H V) (key key' : K) (host : H)
      → (key' == key) ≡ false
      → SameAt key cc (remove_connection cc key' host)
  unfolding remove_connection remove_holder put_or_delete
  remove_connection-SameAt cc key key' host n = elim (Option-cases (lookup key' cc.conns)) [
    | inl e ↦ ground (arith, e)
    | inr (m, e) ↦ elim (Option-cases (lookup host m)) [
      | inl f ↦ ground (arith, e, f)
      | inr (holder, f) ↦ ground (
        arith,
        e,
        f,
        n,
        lookup-erase key' key cc.conns,
        lookup-insert key' key (erase host m) cc.conns,
      )
    ]
  ]

  remove_all-SameAt :
      (cc : ConnectionPool K H V) (key key' : K)
      → (key' == key) ≡ false
      → SameAt key cc (remove_all_connections cc key')
  unfolding remove_all_connections
  remove_all-SameAt cc key key' n = elim (Option-cases (lookup key' cc.conns)) [
    | inl e ↦ ground (arith, e)
    | inr (m, e) ↦ ground (arith, e, n, lookup-erase key' key cc.conns)
  ]

  module _ {D : Type 0} (options : Options H V D) where
    pub begin_dial-conns :
        (cc : ConnectionPool K H V) (host : H) → (begin_dial options cc host).0.conns ≡ cc.conns
    unfolding begin_dial generated_dialer started_client
    begin_dial-conns cc host = generated (dialer_of options cc.dials)
      where
        client : (r : Result V) → (started_client options cc r).0.conns ≡ cc.conns
        client (err e) = refl
        client (ok svc) = refl

        generated : (r : Result D) → (generated_dialer options cc host r).0.conns ≡ cc.conns
        generated (err e) = refl
        generated (ok dialer) = client (options.start_control_client cc.contexts dialer host)

    pub advance_task-Avoids :
        (cc : ConnectionPool K H V) (key : K) (task : PoolTask K H V)
        → Avoids key task
        → Avoids key (advance_task options cc task).task
          × SameAt key cc (advance_task options cc task).pool
    unfolding advance_task after_dial
    advance_task-Avoids cc key (starting key' want) a = (a, refl)
    advance_task-Avoids cc key (connecting key' [] old) a = (a, refl)
    advance_task-Avoids cc key (connecting key' (host ∷ new) old) a =
        dialed (begin_dial options cc host) (ap (lookup key) (begin_dial-conns cc host))
      where
        dialed :
            (r : ConnectionPool K H V × Result (ClientServiceHolder V))
            → SameAt key cc r.0
            → Avoids key
                (after_dial options cannot_reconcile
                  (λ holder. holding key' host holder new old)
                  r).task
              × SameAt key cc
                  (after_dial options cannot_reconcile
                    (λ holder. holding key' host holder new old)
                    r).pool
        dialed (cc', err e) same = (tt, same)
        dialed (cc', ok holder) same = (a, same)
    advance_task-Avoids cc key (holding key' host holder new old) a =
        (a, put_holder-SameAt cc key key' host holder a)
    advance_task-Avoids cc key (disconnecting key' []) a = (tt, refl)
    advance_task-Avoids cc key (disconnecting key' (host ∷ old)) a =
        (a, remove_connection-SameAt cc key key' host a)
    advance_task-Avoids cc key (dialing key' host) a =
        dialed (begin_dial options cc host) (ap (lookup key) (begin_dial-conns cc host))
      where
        dialed :
            (r : ConnectionPool K H V × Result (ClientServiceHolder V))
            → SameAt key cc r.0
            → let s = after_dial options (λ e. finished (err e)) (storing key' host) r in
              Avoids key s.task × SameAt key cc s.pool
        dialed (cc', err e) same = (tt, same)
        dialed (cc', ok holder) same = (a, same)
    advance_task-Avoids cc key (storing key' host holder) a =
        (tt, put_holder-SameAt cc key key' host holder a)
    advance_task-Avoids cc key (removing key' host) a =
        (tt, remove_connection-SameAt cc key key' host a)
    advance_task-Avoids cc key (removing_all key') a = (tt, remove_all-SameAt cc key key' a)
    advance_task-Avoids cc key closing a = absurd (ground (arith, a))
    advance_task-Avoids cc key (finished r) a = (tt, refl)
