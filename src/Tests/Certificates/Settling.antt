-- ===== src/Tests/Certificates/Settling.antt =====
-- pkg/certificates/reconciler: the controller's reconciler around that of the certificates.
use control_protocol.Prelude.{◌≡◌, refl, true, none, some, [], ◌∷◌, codes, if◌then◌else◌}
use control_protocol.Prelude.Equality.{◌==◌, bytes_eq}
use control_protocol.Prelude.Maps.{lookup, insert, empty}
use control_protocol.Errors.{eof, ok, err}
use control_protocol.Reconciler.TlsDialer.{secret_cert_key}
use control_protocol.Certificates.{
  validate_cert, parse_cert, create_signed_cert, legacy_fake_dns_name,
}
use control_protocol.Certificates.Reconciler.{
  new_reconciler, should_reconcile, sans_of, updated_secret, not_found,
}
use control_protocol.Certificates.Reconciler.Kind.{
  parse_and_validate_secret, validated, reconcile_kind,
}
use control_protocol.Certificates.Reconciler.Rotation.{IsSettled, stored}
use control_protocol.Certificates.Reconciler.Cluster.{secret_at, reconcile}
use control_protocol.Certificates.Controller.{
  ReconcilerImpl, error_event, set_finalizer_if_finalizer, set_finalizer,
}
use control_protocol.Certificates.Controller.Reconcile
use control_protocol.Certificates.Controller.Reconcile.{
  reconcile_state, reconcile_found, run_method, reconcile_method_for, method_for, new_state,
  reconcile_resource, report,
}
use control_protocol.Certificates.Controller.Settling.{World, enqueue, around, reconcile-settles}
use control_protocol.Tests.Certificates.Rotation.{
  signing, r, ca_data, ca_secret, secret, cluster_of, signed_ca, signing-HasInverses,
  signing-SignsTemplates, ca_secret_parses, secret_should, secret_sans,
}

-- A replica that leads for all keys.
abbrev leader : ReconcilerImpl World
leader = record {
  split_key = λ key. if key == codes "ns/s" then ok (codes "ns", codes "s") else err eof;
  is_leader_for = λ namespace name. true;
  new_skip_key = λ key. error_event eof;
  get = λ w namespace name. not_found;
  patch = λ namespace name p w. (w, err eof);
  record_event = λ s type reason text w. w;
  set_list = λ l. l;
  marshal_error = λ p. none;
  reconcile_kind = λ s w. (w, s, none);
  finalize_kind = none;
  observe_kind = none;
  observe_deletion = none;
  finalizer_name = codes "secrets.core";
}

abbrev world : World
world = record { cluster = cluster_of ca_secret; enqueued = []; events = [] }

no_error : (Reconcile.reconcile (around signing r leader) (codes "ns/s") world).1 ≡ none
unfolding Reconcile.reconcile reconcile_state reconcile_found run_method reconcile_method_for
    method_for new_state reconcile_resource report set_finalizer_if_finalizer set_finalizer
    reconcile_kind should_reconcile new_reconciler parse_and_validate_secret parse_cert validated
    validate_cert sans_of create_signed_cert updated_secret lookup insert empty
no_error = refl

reconcile-settles_example :
    let o = reconcile signing r (cluster_of ca_secret) secret in
    let w' = (Reconcile.reconcile (around signing r leader) (codes "ns/s") world).0 in
    IsSettled signing secret (lookup secret_cert_key ca_data) (legacy_fake_dns_name ∷ []) o
    × (secret_at w'.cluster (codes "ns") (codes "s") ≡ some (stored secret o))
    × (w'.events ≡ [])
    × (Reconcile.reconcile (around signing r leader) (codes "ns/s") w'
        ≡ (enqueue (stored secret o) o.due w', none))
unfolding lookup insert empty new_reconciler
reconcile-settles_example =
    reconcile-settles signing r leader (codes "ns/s") world secret ca_secret signed_ca
      (legacy_fake_dns_name ∷ []) signing-HasInverses signing-SignsTemplates refl refl refl refl
      secret_should refl ca_secret_parses secret_sans no_error
