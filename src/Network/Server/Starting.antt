-- ===== src/Network/Server/Starting.antt =====
-- pkg/network/server_connection.go: `StartControlServer`.
use control_protocol.Prelude.{ℕ, ◌<◌, ◌≡◌, refl, false, Option, some, List, ◌∷◌, ◌++◌, arith}
use control_protocol.Errors.{Text, Result, ok, err}
use control_protocol.Network.Connection.{BaseConnection, new_connection}
use control_protocol.Network.Client.{contains_colon}
use control_protocol.Network.Server.{
  default_server_port, apply_options, listening_port, Listener, Event, start_accept_polling,
}
use control_protocol.Network.Server.Accepting.{
  after_last_colon-port, Stops, events_of, start_accept_polling_ends,
}
use control_protocol.Service.{noop_message_handler}
use control_protocol.Service.Acks.{Service, new_service}

-- `serverTcpConnection`, with what its listener and its loader will do.
pub record ServerTcpConnection {ℓ} (C : Type ℓ) : Type ℓ where
  pub base : BaseConnection
  pub listener : Listener C

abbrev pub new_server_tcp_connection {ℓ} : {C : Type ℓ} → Listener C → ServerTcpConnection C
new_server_tcp_connection l = record { base = new_connection; listener = l }

-- `ControlServer`: the service, the goroutine that closes `closedCh` last, for a number of rounds of its
-- loop, and the port of `ListeningPort`.
pub record ControlServer {ℓ} (C : Type ℓ) (S : Type 0) : Type ℓ where
  pub service : Service S
  pub closed_ch : ℕ → Option (List (Event C))
  pub port : ℕ

module _ {ℓ} {C : Type ℓ} {S : Type 0} where
  -- `StartControlServer`. `l` is what the listener that `listen` returns will do, with the loader, which
  -- is nil for `StartInsecureControlServer`; `s` is the state of a handler that does nothing.
  unfoldable pub start_control_server :
      (ℕ → Result Text)
      → (Text → Result ℕ)
      → List (ℕ → ℕ)
      → Listener C
      → S
      → Result (ControlServer C S)
  start_control_server listen atoi options l s = elim (listening_port listen atoi options) [
    | err e ↦ err e
    | ok port ↦
        let tcp_conn = new_server_tcp_connection l in
        ok (record {
          service = new_service noop_message_handler s;
          closed_ch = start_accept_polling tcp_conn.listener;
          port = port;
        })
  ]

  -- A server that listens reports the port of its listener's address, whatever colons the host has, and
  -- once its accept loop stops it has treated each conn that it accepted before, in order, a TLS
  -- configuration that does not load costing one conn, and then cleans up and closes ClosedCh's channel.
  pub start_control_server_serves :
      (listen : ℕ → Result Text) (atoi : Text → Result ℕ) (options : List (ℕ → ℕ)) (l : Listener C)
      (s : S) (host digits : Text) (port : ℕ) (conn : ℕ → C) (k rounds : ℕ)
      → listen (apply_options options default_server_port) ≡ ok (host ++ b':' ∷ digits)
      → contains_colon digits ≡ false
      → atoi digits ≡ ok port
      → Stops l conn k
      → k < rounds
      → (server : ControlServer C S) × (start_control_server listen atoi options l s ≡ ok server)
        × (server.port ≡ port)
        × (server.closed_ch rounds ≡ some (events_of l conn k 0))
  unfolding start_control_server listening_port
  start_control_server_serves listen atoi options l s host digits port conn k rounds listens plain
        parses stops enough =
      (
        record {
          service = new_service noop_message_handler s;
          closed_ch = start_accept_polling l;
          port = port;
        },
        ground (arith, listens, after_last_colon-port host digits plain, parses),
        refl,
        start_accept_polling_ends l conn k rounds stops enough,
      )
