-- ===== src/Reconciler/ConnectionPool/Life.antt =====
-- The contexts of the pool from when it is made to when it is closed.
use control_protocol.Prelude.{ℕ, ◌<◌, ◌≡◌, true, none, List, [], ◌∷◌, arith}
use control_protocol.Prelude.Equality.{Comparable, nat_eq}
use control_protocol.Prelude.Maps.{contains}
use control_protocol.Reconciler.ConnectionPool.{
  ConnectionPool, new_pool, Options, remove_connection, remove_all_connections, close,
  dial_control_service, reconcile_connections,
}
use control_protocol.Reconciler.ConnectionPool.Hosts.{holder_at}
use control_protocol.Reconciler.ConnectionPool.Contexts.{
  IsTracked, remove_connection-IsTracked, remove_all_connections-IsTracked, close-cancels,
}
use control_protocol.Reconciler.ConnectionPool.Tracking.{
  Distinct, close-IsTracked, dial-IsTracked, reconcile_connections-IsTracked,
}

pub data Operation (K H : Type 0) : Type 0 where
  dial remove : K → H → Operation K H
  reconcile : K → List H → Operation K H
  remove_all : K → Operation K H
  close_pool : Operation K H

module _ {K H V : Type 0} ⦃k : Comparable K⦄ ⦃h : Comparable H⦄ where
  module _ {D : Type 0} (options : Options H V D) where
    -- The operations that change the pool.
    unfoldable pub apply : ConnectionPool K H V → Operation K H → ConnectionPool K H V
    apply cc (dial key host) = (dial_control_service options cc key host).0
    apply cc (reconcile key want) = (reconcile_connections options cc key want).0
    apply cc (remove key host) = remove_connection cc key host
    apply cc (remove_all key) = remove_all_connections cc key
    apply cc close_pool = close cc

    unfoldable pub apply_all : ConnectionPool K H V → List (Operation K H) → ConnectionPool K H V
    unfolding apply
    apply_all cc [] = cc
    apply_all cc (op ∷ ops) = apply_all (apply cc op) ops

    -- No host is dialed that is connected, and none is wanted twice.
    Careful : ConnectionPool K H V → Operation K H → Type 0
    Careful cc (dial key host) = holder_at cc key host ≡ none
    Careful cc (reconcile key want) = Distinct want
    Careful cc (remove key host) = Unit
    Careful cc (remove_all key) = Unit
    Careful cc close_pool = Unit

    unfoldable pub AllCareful : ConnectionPool K H V → List (Operation K H) → Type 0
    unfolding apply Careful
    AllCareful cc [] = Unit
    AllCareful cc (op ∷ ops) = Careful cc op × AllCareful (apply cc op) ops

    apply-IsTracked :
        (cc : ConnectionPool K H V) (op : Operation K H)
        → Careful cc op
        → IsTracked cc
        → IsTracked (apply cc op)
    unfolding apply Careful
    apply-IsTracked cc (dial key host) c t = dial-IsTracked options cc key host c t
    apply-IsTracked cc (reconcile key want) c t =
        reconcile_connections-IsTracked options cc key want c t
    apply-IsTracked cc (remove key host) c t = remove_connection-IsTracked cc key host t
    apply-IsTracked cc (remove_all key) c t = remove_all_connections-IsTracked cc key t
    apply-IsTracked cc close_pool c t = close-IsTracked cc t

    apply_all-IsTracked :
        (cc : ConnectionPool K H V) (ops : List (Operation K H))
        → AllCareful cc ops
        → IsTracked cc
        → IsTracked (apply_all cc ops)
    unfolding apply_all AllCareful
    apply_all-IsTracked cc [] c t = t
    apply_all-IsTracked cc (op ∷ ops) c t =
        apply_all-IsTracked (apply cc op) ops c.1 (apply-IsTracked cc op c.0 t)

    -- Whatever the pool did since it was made, if it dialed no host that was connected and was never
    -- told to connect to a host twice, `Close` leaves no context behind that was not cancelled.
    pub close-apply_all :
        (ops : List (Operation K H)) (i : ℕ)
        → AllCareful new_pool ops
        → i < (apply_all new_pool ops).contexts
        → contains i (close (apply_all new_pool ops)).cancelled ≡ true
    close-apply_all ops i c b =
        close-cancels (apply_all new_pool ops) i
          (apply_all-IsTracked new_pool ops c (λ j below. absurd (omega arith))) b
