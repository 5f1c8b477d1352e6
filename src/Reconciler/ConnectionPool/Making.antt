-- ===== src/Reconciler/ConnectionPool/Making.antt =====
-- pkg/reconciler: connection_pool.go's `NewControlPlaneConnectionPool`, and connection_pool_option.go.
use control_protocol.Prelude.{
  ℕ, ◌≡◌, refl, sym, ap, ◌∙◌, Option, none, List, [], ◌∷◌, ◌++◌, append_assoc, append-nil,
}
use control_protocol.Prelude.Equality.{Comparable}
use control_protocol.Errors.{Result, ok, err}
use control_protocol.Reconciler.ConnectionPool.{
  ConnectionPool, Options, apply_wrappers, dialer_of, keep_client, start_client,
  dial_control_service,
}

-- `ControlPlaneConnectionPoolOption`, which `WithServiceWrapper` makes.
abbrev pub PoolOption : Type 0 → Type 0 → Type 0 → Type 0
PoolOption H V D = Options H V D → Options H V D

unfoldable pub with_service_wrapper : {H V D : Type 0} → (V → V) → PoolOption H V D
with_service_wrapper wrapper pool = record pool { wrappers = pool.wrappers ++ wrapper ∷ [] }

wrapper_options : {H V D : Type 0} → List (V → V) → List (PoolOption H V D)
wrapper_options [] = []
wrapper_options (wrapper ∷ wrappers) = with_service_wrapper wrapper ∷ wrapper_options wrappers

abbrev map_result : {V W : Type 0} → (V → W) → Result V → Result W
map_result f (ok x) = ok (f x)
map_result f (err e) = err e

module _ {H V D : Type 0} where
  apply_pool_options : List (PoolOption H V D) → Options H V D → Options H V D
  apply_pool_options [] pool = pool
  apply_pool_options (fn ∷ opts) pool = apply_pool_options opts (fn pool)

  -- `NewControlPlaneConnectionPool`, with `baseDialOptions` and `StartControlClient`.
  unfoldable pub new_control_plane_connection_pool :
      D → (ℕ → D → H → Result V) → Option (ℕ → Result D) → List (PoolOption H V D) → Options H V D
  unfolding apply_pool_options
  new_control_plane_connection_pool base_dialer start_control_client tls_dialer_factory opts =
      apply_pool_options opts (record {
        base_dialer = base_dialer;
        tls_dialer_factory = tls_dialer_factory;
        start_control_client = start_control_client;
        wrappers = [];
      })

  unfoldable pub new_insecure_control_plane_connection_pool :
      D → (ℕ → D → H → Result V) → List (PoolOption H V D) → Options H V D
  new_insecure_control_plane_connection_pool base_dialer start_control_client opts =
      new_control_plane_connection_pool base_dialer start_control_client none opts

  apply-wrapper_options :
      (wrappers : List (V → V)) (pool : Options H V D)
      → apply_pool_options (wrapper_options wrappers) pool
        ≡ record pool { wrappers = pool.wrappers ++ wrappers }
  unfolding apply_pool_options wrapper_options with_service_wrapper
  apply-wrapper_options [] pool =
      ap (λ w. record pool { wrappers = w }) (sym (append-nil pool.wrappers))
  apply-wrapper_options (wrapper ∷ wrappers) pool =
      apply-wrapper_options wrappers (with_service_wrapper wrapper pool)
      ∙ ap (λ w. record pool { wrappers = w }) (append_assoc pool.wrappers (wrapper ∷ []) wrappers)

module _ {K H V D : Type 0} ⦃k : Comparable K⦄ ⦃h : Comparable H⦄ (pool : Options H V D)
    (wrappers : List (V → V)) (cc : ConnectionPool K H V) (key : K) (host : H) where
  keep_client-wrapped :
      (r : Result V)
      → (keep_client (record pool { wrappers = wrappers }) cc key host r).1
        ≡ map_result
            (apply_wrappers wrappers)
            (keep_client (record pool { wrappers = [] }) cc key host r).1
  unfolding keep_client
  keep_client-wrapped (err e) = refl
  keep_client-wrapped (ok svc) = refl

  start_client-wrapped :
      (r : Result D)
      → (start_client (record pool { wrappers = wrappers }) cc key host r).1
        ≡ map_result
            (apply_wrappers wrappers)
            (start_client (record pool { wrappers = [] }) cc key host r).1
  unfolding start_client
  start_client-wrapped (err e) = refl
  start_client-wrapped (ok dialer) =
      keep_client-wrapped (pool.start_control_client cc.contexts dialer host)

-- A pool made with `WithServiceWrapper` dials as one made without, and wraps each service that it gives by
-- the wrappers, the first one given first.
dial_control_service-wrapped :
    {K H V D : Type 0} ⦃k : Comparable K⦄ ⦃h : Comparable H⦄ (base_dialer : D)
    (start : ℕ → D → H → Result V) (factory : Option (ℕ → Result D)) (wrappers : List (V → V))
    (cc : ConnectionPool K H V) (key : K) (host : H)
    → let made = new_control_plane_connection_pool base_dialer start factory in
      (dial_control_service (made (wrapper_options wrappers)) cc key host).1
      ≡ map_result (apply_wrappers wrappers) (dial_control_service (made []) cc key host).1
unfolding new_control_plane_connection_pool apply_pool_options dial_control_service dialer_of
dial_control_service-wrapped base_dialer start factory wrappers cc key host =
    let plain = new_control_plane_connection_pool base_dialer start factory [] in
    ap (λ o. (dial_control_service o cc key host).1) (apply-wrapper_options wrappers plain)
    ∙ start_client-wrapped plain wrappers cc key host (dialer_of plain cc.dials)
