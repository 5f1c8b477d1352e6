-- ===== src/Reconciler/TlsDialer.antt =====
-- pkg/reconciler/tls_dialer_factory.go. The secret lister and crypto/tls are parameters.
use control_protocol.Prelude.{ℕ, Option, none, some, List, codes}
use control_protocol.Prelude.Equality.{bytes_eq}
use control_protocol.Prelude.Maps.{Map, lookup}
use control_protocol.Errors.{Text, Error, plain, Result, ok, err, ◌>>=◌}
use control_protocol.Certificates.{data_plane_user_name}

abbrev pub secret_ca_cert_key : Text
secret_ca_cert_key = codes "ca-cert.pem"

abbrev pub secret_cert_key : Text
secret_cert_key = codes "public-cert.pem"

abbrev pub secret_pk_key : Text
secret_pk_key = codes "private-key.pem"

abbrev pub no_tls_configuration : Error
no_tls_configuration = plain (codes "no tls configuration available")

-- `ListerCertificateGetter`: what the lister returns for the name in the namespace, the `Data` of a
-- secret. `none` stands for a nil secret or nil data.
pub record ListerCertificateGetter : Type 0 where
  pub secret : Result (Option (Map Text (List ℕ)))
  pub namespace : Text

-- `tls.Dialer`, with the part of `tls.Config` that is set.
pub record TlsDialer (D C : Type 0) : Type 0 where
  pub net_dialer : D
  pub certificate : C
  pub root_cas : List ℕ
  pub server_name : Text

module _ {D C : Type 0} (x509_key_pair : List ℕ → List ℕ → Result C) where
  tls_dialer :
      ListerCertificateGetter
      → D
      → Option (List ℕ)
      → Option (List ℕ)
      → Option (List ℕ)
      → Result (TlsDialer D C)
  tls_dialer ch base none cert pk = err no_tls_configuration
  tls_dialer ch base (some ca) none pk = err no_tls_configuration
  tls_dialer ch base (some ca) (some cert) none = err no_tls_configuration
  tls_dialer ch base (some ca) (some cert) (some pk) = do
    control_plane_cert ← x509_key_pair cert pk
    ok (record {
      net_dialer = base;
      certificate = control_plane_cert;
      root_cas = ca;
      server_name = data_plane_user_name ch.namespace;
    })

  from_data : ListerCertificateGetter → D → Option (Map Text (List ℕ)) → Result (TlsDialer D C)
  unfolding tls_dialer
  from_data ch base none = err no_tls_configuration
  from_data ch base (some data_of) =
      tls_dialer ch base (lookup secret_ca_cert_key data_of) (lookup secret_cert_key data_of)
        (lookup secret_pk_key data_of)

  unfoldable pub generate_tls_dialer : ListerCertificateGetter → D → Result (TlsDialer D C)
  unfolding from_data
  generate_tls_dialer ch base_dial_options = do
    data_of ← ch.secret
    from_data ch base_dial_options data_of
