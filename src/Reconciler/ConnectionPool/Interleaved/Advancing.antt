-- ===== src/Reconciler/ConnectionPool/Interleaved/Advancing.antt =====
-- A step of a reconciliation leads on.
use control_protocol.Prelude.{refl, sym, ap, subst, List, [], ◌∷◌, arith}
use control_protocol.Prelude.Equality.{Comparable, ==_refl}
use control_protocol.Prelude.Maps.{lookup, is_some}
use control_protocol.Errors.{Result, ok, err}
use control_protocol.Reconciler.Nested.{get_in-insert_in}
use control_protocol.Reconciler.ConnectionPool.{
  ClientServiceHolder, ConnectionPool, Options, set_difference, get_connected_hosts, get_services,
  remove_connection, put_holder,
}
use control_protocol.Reconciler.ConnectionPool.Hosts.{
  contains-set_difference, contains-get_connected_hosts, holder_at-remove_connection,
}
use control_protocol.Reconciler.ConnectionPool.Reconciling.{service_of-get_services}
use control_protocol.Reconciler.ConnectionPool.Interleaved.{
  PoolTask, starting, connecting, holding, disconnecting, dialing, storing, removing, removing_all,
  closing, finished, begin_dial, after_dial, cannot_reconcile, advance_task,
}
use control_protocol.Reconciler.ConnectionPool.Interleaved.Frame.{SameAt, begin_dial-conns}
use control_protocol.Reconciler.ConnectionPool.Interleaved.Progress.{
  Tracks, Grows, IsDone, Ends, Goes, holder_at-SameAt, Tracks-SameAt, Grows-SameAt,
}

module _ {K H V : Type 0} ⦃k : Comparable K⦄ ⦃h : Comparable H⦄ (key : K) (want : List H)
    (before : ConnectionPool K H V) where
  start-Tracks :
      (cc : ConnectionPool K H V)
      → SameAt key before cc
      → let existing = get_connected_hosts cc key in
        Tracks key want before cc (set_difference want existing) (set_difference existing want)
  start-Tracks cc same =
      let existing = get_connected_hosts cc key in
      let new_iff = λ (host : H). contains-set_difference host want existing in
      let old_iff = λ (host : H). contains-set_difference host existing want in
      let was = λ (host : H). contains-get_connected_hosts cc key host in
      let at = λ (host : H). holder_at-SameAt key want before before cc host same in
      record {
        within = λ host there. ground (arith, there, was host, old_iff host);
        reached = λ host w. ground (arith, w, was host, new_iff host);
        wanted = λ host n. ground (arith, n, new_iff host);
        fresh = λ host n. ground (arith, n, new_iff host, was host, ap is_some (at host));
        unwanted = λ host o. ground (arith, o, old_iff host);
        kept = λ host there w. at host;
      }

  put-Tracks :
      (cc : ConnectionPool K H V) (host : H) (holder : ClientServiceHolder V) (new old : List H)
      → Tracks key want before cc (host ∷ new) old
      → Tracks key want before (put_holder cc key host holder) new old
  unfolding put_holder
  put-Tracks cc host holder new old t =
      let at = λ (host' : H). get_in-insert_in cc.conns key key host host' holder in
      record {
        within = λ host' there.
            ground (arith, there, at host', ==_refl key, t.within host', t.wanted host');
        reached = λ host' w. ground (arith, w, at host', ==_refl key, t.reached host' w);
        wanted = λ host' n. t.wanted host' (ground (arith, n));
        fresh = λ host' n. t.fresh host' (ground (arith, n));
        unwanted = t.unwanted;
        kept = λ host' there w.
            ground (arith, there, at host', ==_refl key, t.kept host' there w, t.fresh host');
      }

  put-Grows :
      (cc : ConnectionPool K H V) (host : H) (holder : ClientServiceHolder V) (new old : List H)
      → Tracks key want before cc (host ∷ new) old
      → Grows key want before cc
      → Grows key want before (put_holder cc key host holder)
  unfolding put_holder Grows
  put-Grows cc host holder new old t g = λ host' there. ground (
    arith,
    there,
    get_in-insert_in cc.conns key key host host' holder,
    ==_refl key,
    g host' there,
    t.fresh host',
  )

  remove-Tracks :
      (cc : ConnectionPool K H V) (host : H) (old : List H)
      → Tracks key want before cc [] (host ∷ old)
      → Tracks key want before (remove_connection cc key host) [] old
  remove-Tracks cc host old t =
      let at = λ (host' : H). holder_at-remove_connection cc key key host host' in
      record {
        within = λ host' there. ground (arith, there, at host', ==_refl key, t.within host');
        reached = λ host' w.
            ground (arith, w, at host', ==_refl key, t.reached host' w, t.unwanted host');
        wanted = λ host' n. absurd (ground (arith, n));
        fresh = λ host' n. absurd (ground (arith, n));
        unwanted = λ host' o. t.unwanted host' (ground (arith, o));
        kept = λ host' there w.
            ground (arith, there, w, at host', ==_refl key, t.kept host' there w, t.unwanted host');
      }

  Tracks-IsDone :
      (cc : ConnectionPool K H V)
      → Tracks key want before cc [] []
      → IsDone key want before cc (get_services cc key)
  Tracks-IsDone cc t = record {
    connected = λ host. ground (arith, t.within host, t.reached host);
    kept_wanted = t.kept;
    returned = λ host. service_of-get_services cc key host;
  }

  module _ {D : Type 0} (options : Options H V D) where
    dial-Goes :
        (cc : ConnectionPool K H V) (host : H) (new old : List H)
        → Tracks key want before cc (host ∷ new) old
        → Grows key want before cc
        → (r : ConnectionPool K H V × Result (ClientServiceHolder V)) → SameAt key cc r.0
        → let s =
            after_dial options cannot_reconcile (λ holder. holding key host holder new old) r in
          Goes key want before s.pool s.task
    unfolding after_dial Goes Ends
    dial-Goes cc host new old t g (cc', err e) same = Grows-SameAt key want before cc cc' same g
    dial-Goes cc host new old t g (cc', ok holder) same = (
      refl,
      Tracks-SameAt key want before cc cc' (host ∷ new) old same t,
      Grows-SameAt key want before cc cc' same g,
    )

    -- A step of its own leads on.
    pub advance_task-Goes :
        (cc : ConnectionPool K H V) (task : PoolTask K H V)
        → Goes key want before cc task
        → let s = advance_task options cc task in Goes key want before s.pool s.task
    unfolding advance_task Goes Ends Grows
    advance_task-Goes cc (starting key' want') (p, q, same) =
        let t =
          subst
            (λ w.
              let existing = get_connected_hosts cc key in
              Tracks key want before cc (set_difference w existing) (set_difference existing w))
            (sym q) (start-Tracks cc same) in
        (
          p,
          subst
              (λ j.
                let existing = get_connected_hosts cc j in
                Tracks key want before cc (set_difference want' existing)
                  (set_difference existing want'))
              (sym p) t,
          λ host there. holder_at-SameAt key want before before cc host same,
        )
    advance_task-Goes cc (connecting key' [] old) (p, t, g) = (p, t)
    advance_task-Goes cc (connecting key' (host ∷ new) old) (p, t, g) =
        subst
          (λ j.
            let s =
              after_dial options cannot_reconcile (λ holder. holding j host holder new old)
                (begin_dial options cc host) in
            Goes key want before s.pool s.task)
          (sym p)
          (dial-Goes cc host new old t g (begin_dial options cc host)
            (ap (lookup key) (begin_dial-conns options cc host)))
    advance_task-Goes cc (holding key' host holder new old) (p, t, g) = (
      p,
      subst (λ j. Tracks key want before (put_holder cc j host holder) new old) (sym p)
          (put-Tracks cc host holder new old t),
      subst (λ j. Grows key want before (put_holder cc j host holder)) (sym p)
          (put-Grows cc host holder new old t g),
    )
    advance_task-Goes cc (disconnecting key' []) (p, t) =
        subst (λ j. IsDone key want before cc (get_services cc j)) (sym p) (Tracks-IsDone cc t)
    advance_task-Goes cc (disconnecting key' (host ∷ old)) (p, t) = (
      p,
      subst (λ j. Tracks key want before (remove_connection cc j host) [] old) (sym p)
          (remove-Tracks cc host old t),
    )
    advance_task-Goes cc (dialing key' host) g = absurd (ground (arith, g))
    advance_task-Goes cc (storing key' host holder) g = absurd (ground (arith, g))
    advance_task-Goes cc (removing key' host) g = absurd (ground (arith, g))
    advance_task-Goes cc (removing_all key') g = absurd (ground (arith, g))
    advance_task-Goes cc closing g = absurd (ground (arith, g))
    advance_task-Goes cc (finished r) g = g
