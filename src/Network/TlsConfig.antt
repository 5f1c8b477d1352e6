-- ===== src/Network/TlsConfig.antt =====
-- pkg/network/tls.go. Reading the files and crypto/tls are parameters: what `LoadX509KeyPair` and
-- `ReadFile` return, and `VerifyHostname` of a certificate.
use control_protocol.Prelude.{Option, List, [], ℕ, codes}
use control_protocol.Errors.{Text, Error, Result, ok, ◌>>=◌}
use control_protocol.Certificates.{data_plane_routing_name, data_plane_user_name}

-- `C` stands for `tls.Certificate` and `X` for `x509.Certificate`. A pool is what was appended to it.
pub record ServerConfig (C X : Type 0) : Type 0 where
  pub certificate : C
  pub client_cas : List ℕ
  -- The function on the peer's first certificate.
  pub verify_connection : X → Option Error

pub record ClientConfig (C : Type 0) : Type 0 where
  pub certificate : C
  pub root_cas : List ℕ
  pub server_name : Text

-- `tls.LoadX509KeyPair` of the two paths, and `ioutil.ReadFile` of the CA's.
pub record Files (C : Type 0) : Type 0 where
  pub key_pair : Result C
  pub ca_cert : Result (List ℕ)

unfoldable pub load_server_tls_config_from_file :
    {C X : Type 0} → (X → Text → Option Error) → Files C → Result (ServerConfig C X)
load_server_tls_config_from_file verify_hostname files = do
  cert ← files.key_pair
  ca_cert ← files.ca_cert
  ok (record {
    certificate = cert;
    client_cas = ca_cert;
    verify_connection = λ peer. verify_hostname peer (data_plane_routing_name []);
  })

unfoldable pub load_client_tls_config_from_file : {C : Type 0} → Files C → Result (ClientConfig C)
load_client_tls_config_from_file files = do
  cert ← files.key_pair
  ca_cert ← files.ca_cert
  ok (record {
    certificate = cert;
    root_cas = ca_cert;
    server_name = data_plane_user_name (codes "myns");
  })
