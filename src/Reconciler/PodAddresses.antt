-- ===== src/Reconciler/PodAddresses.antt =====
-- pkg/reconciler/pod_ip_getter.go. The lister is a parameter: what it returns for a namespace and a
-- selector.
use control_protocol.Prelude.{
  ◌≡◌, refl, false, List, [], ◌∷◌, Bool-cases, inl, inr, arith, if◌then◌else◌,
}
use control_protocol.Prelude.Equality.{◌==◌, bytes_eq}
use control_protocol.Prelude.Maps.{contains}
use control_protocol.Errors.{Text, Result, ok, ◌>>=◌}

-- `v1.Pod`, of which the code reads `Status.PodIP`.
pub record Pod : Type 0 where
  pub pod_ip : Text

unfoldable pub pod_ips : List Pod → List Text
pod_ips [] = []
pod_ips (p ∷ pods) = let ips = pod_ips pods in if p.pod_ip == [] then ips else p.pod_ip ∷ ips

unfoldable pub get_all_pods_ip : Result (List Pod) → Result (List Text)
unfolding pod_ips
get_all_pods_ip listed = do pods ← listed; ok (pod_ips pods)

-- No address is empty.
pub contains-pod_ips : (pods : List Pod) → contains [] (pod_ips pods) ≡ false
unfolding pod_ips
contains-pod_ips [] = refl
contains-pod_ips (p ∷ pods) = elim (Bool-cases (p.pod_ip == [])) [
  | inl e ↦ ground (arith, e, contains-pod_ips pods)
  | inr e ↦ ground (arith, e, contains-pod_ips pods)
]
