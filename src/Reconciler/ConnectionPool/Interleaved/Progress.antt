-- ===== src/Reconciler/ConnectionPool/Interleaved/Progress.antt =====
-- A reconciliation in its steps: what it has done so far.
use control_protocol.Prelude.{
  ◌≡◌, sym, ap, ◌∙◌, ◌||◌, true, false, Option, none, some, List, [], ◌∷◌,
}
use control_protocol.Prelude.Equality.{Comparable}
use control_protocol.Prelude.Maps.{Map, lookup, contains, is_some, map_option}
use control_protocol.Errors.{Result, ok, err}
use control_protocol.Reconciler.ConnectionPool.{ClientServiceHolder, ConnectionPool}
use control_protocol.Reconciler.ConnectionPool.Hosts.{holder_at}
use control_protocol.Reconciler.ConnectionPool.Reconciling.{service_of}
use control_protocol.Reconciler.ConnectionPool.Interleaved.{
  PoolTask, starting, connecting, holding, disconnecting, dialing, storing, removing, removing_all,
  closing, finished,
}
use control_protocol.Reconciler.ConnectionPool.Interleaved.Frame.{SameAt}

module _ {K H V : Type 0} ⦃k : Comparable K⦄ ⦃h : Comparable H⦄ (key : K) (want : List H)
    (before : ConnectionPool K H V) where
  -- The hosts still to dial are `new`, those still to remove are `old`.
  pub record Tracks (cc : ConnectionPool K H V) (new old : List H) : Type 0 where
    pub within :
        (host : H)
        → is_some (holder_at cc key host) ≡ true
        → (contains host want || contains host old) ≡ true
    pub reached :
        (host : H)
        → contains host want ≡ true
        → (is_some (holder_at cc key host) || contains host new) ≡ true
    pub wanted : (host : H) → contains host new ≡ true → contains host want ≡ true
    pub fresh : (host : H) → contains host new ≡ true → is_some (holder_at before key host) ≡ false
    pub unwanted : (host : H) → contains host old ≡ true → contains host want ≡ false
    pub kept :
        (host : H)
        → is_some (holder_at before key host) ≡ true
        → contains host want ≡ true
        → holder_at cc key host ≡ holder_at before key host

  -- No connection was closed.
  unfoldable pub Grows : ConnectionPool K H V → Type 0
  Grows cc =
      (host : H)
      → is_some (holder_at before key host) ≡ true
      → holder_at cc key host ≡ holder_at before key host

  -- The end of a reconciliation without an error.
  pub record IsDone (cc : ConnectionPool K H V) (services : Option (Map H V)) : Type 0 where
    pub connected : (host : H) → is_some (holder_at cc key host) ≡ contains host want
    pub kept_wanted :
        (host : H)
        → is_some (holder_at before key host) ≡ true
        → contains host want ≡ true
        → holder_at cc key host ≡ holder_at before key host
    pub returned :
        (host : H)
        → service_of host services ≡ map_option (λ holder. holder.service) (holder_at cc key host)

  -- What `ReconcileConnections` leaves when it has returned.
  unfoldable pub Ends : ConnectionPool K H V → Result (Option (Map H V)) → Type 0
  Ends cc (err e) = Grows cc
  Ends cc (ok services) = IsDone cc services

  unfoldable pub Goes : ConnectionPool K H V → PoolTask K H V → Type 0
  Goes cc (starting key' want') = (key' ≡ key) × (want' ≡ want) × SameAt key before cc
  Goes cc (connecting key' new old) = (key' ≡ key) × Tracks cc new old × Grows cc
  Goes cc (holding key' host holder new old) = (key' ≡ key) × Tracks cc (host ∷ new) old × Grows cc
  Goes cc (disconnecting key' old) = (key' ≡ key) × Tracks cc [] old
  Goes cc (dialing key' host) = ◌≡◌ true false
  Goes cc (storing key' host holder) = ◌≡◌ true false
  Goes cc (removing key' host) = ◌≡◌ true false
  Goes cc (removing_all key') = ◌≡◌ true false
  Goes cc closing = ◌≡◌ true false
  Goes cc (finished r) = Ends cc r

  pub holder_at-SameAt :
      (cc cc' : ConnectionPool K H V) (host : H)
      → SameAt key cc cc'
      → holder_at cc' key host ≡ holder_at cc key host
  holder_at-SameAt cc cc' host same =
      ap
        (λ (o : Option (Map H (ClientServiceHolder V))). elim o [
          | none ↦ none
          | some m ↦ lookup host m
        ])
        same

  pub Tracks-SameAt :
      (cc cc' : ConnectionPool K H V) (new old : List H)
      → SameAt key cc cc'
      → Tracks cc new old
      → Tracks cc' new old
  Tracks-SameAt cc cc' new old same t =
      let at = λ (host : H). holder_at-SameAt cc cc' host same in
      record {
        within = λ host there. t.within host (ap is_some (sym (at host)) ∙ there);
        reached = λ host w. ap (λ o. is_some o || contains host new) (at host) ∙ t.reached host w;
        wanted = t.wanted;
        fresh = t.fresh;
        unwanted = t.unwanted;
        kept = λ host there w. at host ∙ t.kept host there w;
      }

  pub Grows-SameAt : (cc cc' : ConnectionPool K H V) → SameAt key cc cc' → Grows cc → Grows cc'
  unfolding Grows
  Grows-SameAt cc cc' same g = λ host there. holder_at-SameAt cc cc' host same ∙ g host there

  IsDone-SameAt :
      (cc cc' : ConnectionPool K H V) (services : Option (Map H V))
      → SameAt key cc cc'
      → IsDone cc services
      → IsDone cc' services
  IsDone-SameAt cc cc' services same d =
      let at = λ (host : H). holder_at-SameAt cc cc' host same in
      record {
        connected = λ host. ap is_some (at host) ∙ d.connected host;
        kept_wanted = λ host there w. at host ∙ d.kept_wanted host there w;
        returned =
            λ host. d.returned host ∙ ap (map_option (λ holder. holder.service)) (sym (at host));
      }

  -- Steps of other goroutines leave it.
  pub Goes-SameAt :
      (cc cc' : ConnectionPool K H V) (task : PoolTask K H V)
      → SameAt key cc cc'
      → Goes cc task
      → Goes cc' task
  unfolding Goes Ends
  Goes-SameAt cc cc' (starting key' want') same (p, q, g) = (p, q, same ∙ g)
  Goes-SameAt cc cc' (connecting key' new old) same (p, t, g) =
      (p, Tracks-SameAt cc cc' new old same t, Grows-SameAt cc cc' same g)
  Goes-SameAt cc cc' (holding key' host holder new old) same (p, t, g) =
      (p, Tracks-SameAt cc cc' (host ∷ new) old same t, Grows-SameAt cc cc' same g)
  Goes-SameAt cc cc' (disconnecting key' old) same (p, t) = (p, Tracks-SameAt cc cc' [] old same t)
  Goes-SameAt cc cc' (dialing key' host) same g = g
  Goes-SameAt cc cc' (storing key' host holder) same g = g
  Goes-SameAt cc cc' (removing key' host) same g = g
  Goes-SameAt cc cc' (removing_all key') same g = g
  Goes-SameAt cc cc' closing same g = g
  Goes-SameAt cc cc' (finished (err e)) same g = Grows-SameAt cc cc' same g
  Goes-SameAt cc cc' (finished (ok services)) same d = IsDone-SameAt cc cc' services same d
