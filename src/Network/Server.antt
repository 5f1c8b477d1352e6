-- ===== src/Network/Server.antt =====
-- pkg/network/server_connection.go: the port of the listener, and the loop that accepts conns and
-- consumes one after another.
pub mod Accepting
pub mod Starting
use control_protocol.Prelude.{
  ℕ, zero, suc, ◌+◌, Bool, true, false, Option, none, some, List, [], ◌∷◌, ◌++◌, ◌==ℕ◌,
  if◌then◌else◌, codes,
}
use control_protocol.Errors.{Text, Error, Result, ok, err, wrapped}
use control_protocol.Network.Client.{contains_colon}

abbrev pub default_server_port : ℕ
default_server_port = 9000

-- `ControlServerOption`, as `WithPort` makes it.
abbrev pub with_port : ℕ → ℕ → ℕ
with_port port options = port

abbrev pub apply_options : List (ℕ → ℕ) → ℕ → ℕ
apply_options [] port = port
apply_options (f ∷ options) port = apply_options options (f port)

-- `address[strings.LastIndex(address, ":")+1:]`: without a colon, all of it.
unfoldable pub after_last_colon : Text → Text
after_last_colon [] = []
after_last_colon (c ∷ address) =
    let rest = after_last_colon address in
    if contains_colon address then rest else (if c ==ℕ b':' then address else c ∷ address)

abbrev pub cannot_parse_port : Text
cannot_parse_port = codes "cannot parse the listening port: "

-- `StartControlServer` up to the start of its goroutines: the port that it listens on. `listen` is
-- the address of the listener for a port to ask for, and `atoi` is `strconv.Atoi`.
unfoldable pub listening_port : (ℕ → Result Text) → (Text → Result ℕ) → List (ℕ → ℕ) → Result ℕ
listening_port listen atoi options = elim (listen (apply_options options default_server_port)) [
  | err e ↦ err e
  | ok address ↦ elim (atoi (after_last_colon address)) [
    | err e ↦ err (wrapped cannot_parse_port e)
    | ok port ↦ ok port
  ]
]

-- What the accept loop meets: `done i` tells whether the context is done at the top of round `i`,
-- and `accept i` is what the listener returns in it. With a `tlsConfigLoader`, a conn becomes what
-- `tls.Server` makes of it with what the loader returns.
pub record Listener {ℓ} (C : Type ℓ) : Type ℓ where
  pub done : ℕ → Bool
  pub accept : ℕ → Result C
  pub tls_config_loader : Option (ℕ → Result (C → C))

-- What becomes of a conn: it is consumed to its end, or it is closed, with the error signalled.
pub data Outcome {ℓ} (C : Type ℓ) : Type ℓ where
  consumed : C → Outcome C
  refused : C → Error → Outcome C

-- What the goroutine of `startAcceptPolling` does: a conn is treated, the queues and the errors are
-- closed by `cleanup`, and the channel of `ClosedCh` is closed.
pub data Event {ℓ} (C : Type ℓ) : Type ℓ where
  treated : Outcome C → Event C
  cleaned_up channel_closed : Event C

module _ {ℓ} {C : Type ℓ} (l : Listener C) where
  upgraded : Result (C → C) → C → Outcome C
  upgraded (ok tls) conn = consumed (tls conn)
  upgraded (err e) conn = refused conn e

  unfoldable pub outcome : ℕ → C → Outcome C
  unfolding upgraded
  outcome i conn = elim l.tls_config_loader [
    | none ↦ consumed conn
    | some load ↦ upgraded (load i) conn
  ]

  -- `none` stands for a loop that still runs after so many rounds. The service takes the errors
  -- that are signalled, so that signalling does not block for good.
  unfoldable pub listen_loop : ℕ → ℕ → Option (List (Outcome C))
  unfolding outcome
  listen_loop zero i = none
  listen_loop (suc left) i =
      let rest = listen_loop left (suc i) in
      elim (l.done i) [
        | true ↦ some []
        | false ↦ elim (l.accept i) [
          | err e ↦ some []
          | ok conn ↦ elim rest [ none ↦ none | some outcomes ↦ some (outcome i conn ∷ outcomes) ]
        ]
      ]

  treat_all : List (Outcome C) → List (Event C)
  treat_all [] = cleaned_up ∷ channel_closed ∷ []
  treat_all (o ∷ outcomes) = treated o ∷ treat_all outcomes

  -- `startAcceptPolling`, the goroutine that accepts. The other one closes the listener once the
  -- context is done, which `accept` shows.
  unfoldable pub start_accept_polling : ℕ → Option (List (Event C))
  unfolding treat_all
  start_accept_polling rounds = elim (listen_loop rounds 0) [
    | none ↦ none
    | some outcomes ↦ some (treat_all outcomes)
  ]
