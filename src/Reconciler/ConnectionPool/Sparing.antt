-- ===== src/Reconciler/ConnectionPool/Sparing.antt =====
-- Dialing cancels no context but its own.
use control_protocol.Prelude.{ℕ, ◌≤◌, ◌<◌, ◌≡◌, refl, ◌∙◌, Option, List, [], ◌∷◌, arith}
use control_protocol.Prelude.Equality.{Comparable, nat_eq}
use control_protocol.Prelude.Maps.{contains, contains-append}
use control_protocol.Errors.{Error, Result, ok, err}
use control_protocol.Reconciler.ConnectionPool.{
  ConnectionPool, Options, Called, dialer_of, put_holder, keep_client, start_client,
  dial_control_service, connect_round, connect_all,
}

module _ {K H V : Type 0} ⦃k : Comparable K⦄ ⦃h : Comparable H⦄ where
  -- No context that was there is cancelled.
  pub record Spares (cc cc' : ConnectionPool K H V) : Type 0 where
    pub grows : cc.contexts ≤ cc'.contexts
    pub spared : (i : ℕ) → i < cc.contexts → contains i cc'.cancelled ≡ contains i cc.cancelled

  Spares-none : (cc : ConnectionPool K H V) → Spares cc cc
  Spares-none cc = record { grows = omega arith; spared = λ i b. refl }

  Spares-both : (cc cc1 cc2 : ConnectionPool K H V) → Spares cc cc1 → Spares cc1 cc2 → Spares cc cc2
  Spares-both cc cc1 cc2 s t = record {
    grows = omega (arith, s.grows, t.grows);
    spared = λ i b. t.spared i (omega (arith, b, s.grows)) ∙ s.spared i b;
  }

  module _ {D : Type 0} (options : Options H V D) where
    dial-Spares :
        (cc : ConnectionPool K H V) (key : K) (host : H)
        → Spares cc (dial_control_service options cc key host).0
    unfolding dial_control_service start_client keep_client put_holder
    dial-Spares cc key host =
        let s = started (dialer_of options cc.dials) in
        record { grows = s.grows; spared = s.spared }
      where
        kept : (r : Result V) → Spares cc (keep_client options cc key host r).0
        kept (err e) = record {
          grows = omega arith;
          spared = λ i b. ground (arith, b, contains-append i cc.cancelled (cc.contexts ∷ []));
        }
        kept (ok svc) = record { grows = omega arith; spared = λ i b. refl }

        started : (r : Result D) → Spares cc (start_client options cc key host r).0
        started (err e) = Spares-none cc
        started (ok dialer) = kept (options.start_control_client cc.contexts dialer host)

    round-Spares :
        (cc : ConnectionPool K H V) (host : H) (r : ConnectionPool K H V × Result V)
        (rest : ConnectionPool K H V × List (Called H V) × Option Error)
        → Spares cc r.0
        → Spares r.0 rest.0
        → Spares cc (connect_round host r rest).0
    unfolding connect_round
    round-Spares cc host (cc', err e) rest s t = s
    round-Spares cc host (cc', ok svc) rest s t = Spares-both cc cc' rest.0 s t

    pub connect_all-Spares :
        (cc : ConnectionPool K H V) (key : K) (hosts : List H)
        → Spares cc (connect_all options cc key hosts).0
    unfolding connect_all
    connect_all-Spares cc key [] = Spares-none cc
    connect_all-Spares cc key (host ∷ hosts) =
        let d = dial_control_service options cc key host in
        round-Spares cc host d (connect_all options d.0 key hosts) (dial-Spares cc key host)
          (connect_all-Spares d.0 key hosts)
