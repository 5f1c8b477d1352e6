-- ===== src/Network/Client.antt =====
-- pkg/network/client_connection.go: the target, the dialing with retries, and the life of the
-- client, which consumes one conn after another until it can dial no more.
pub mod Dialing
pub mod Life
use control_protocol.Prelude.{
  ℕ, zero, suc, ◌+◌, Bool, true, false, ◌||◌, Option, none, some, List, [], ◌∷◌, ◌++◌, ◌==ℕ◌,
  if◌then◌else◌, codes,
}
use control_protocol.Errors.{Text, Error, Result, ok, err, wrapped}

abbrev pub client_initial_dial_retry : ℕ
client_initial_dial_retry = 5

abbrev pub client_reconnection_retry : ℕ
client_reconnection_retry = 10

-- `strings.Contains(target, ":")`
abbrev pub contains_colon : Text → Bool
contains_colon [] = false
contains_colon (c ∷ target) = c ==ℕ b':' || contains_colon target

abbrev pub default_port : Text
default_port = codes ":9000"

unfoldable pub with_default_port : Text → Text
with_default_port target = if contains_colon target then target else target ++ default_port

-- The text in front of the error that wraps the dialer's.
abbrev pub initial_dial_failed : Text → Text
initial_dial_failed target =
    codes "cannot perform the initial dial to target " ++ target ++ codes ": "

-- `dial i` is what the dialer returns on attempt `i`; `cancelled i` tells whether the context is
-- done in the wait behind attempt `i`.
pub record Attempts {ℓ} (C : Type ℓ) : Type ℓ where
  pub dial : ℕ → Result C
  pub cancelled : ℕ → Bool

-- `(net.Conn, error)`
pub record Dialed {ℓ} (C : Type ℓ) : Type ℓ where
  pub conn : Option C
  pub error : Option Error

module _ {ℓ} {C : Type ℓ} where
  -- The loop, with the rounds left, `i` and the last error.
  unfoldable pub dial_loop : Attempts C → ℕ → ℕ → Option Error → Dialed C
  dial_loop a zero i last = record { conn = none; error = last }
  dial_loop a (suc left) i last = elim (a.dial i) [
    | ok c ↦ record { conn = some c; error = none }
    | err e ↦ elim (a.cancelled i) [
      | true ↦ record { conn = none; error = some e }
      | false ↦ dial_loop a left (suc i) (some e)
    ]
  ]

  unfoldable pub try_dial : Attempts C → ℕ → Dialed C
  unfolding dial_loop
  try_dial a retries = dial_loop a retries 0 none

-- What the client does, in order: it takes a conn to its end, or it cleans up, which it does last.
pub data Event {ℓ} (C : Type ℓ) : Type ℓ where
  consumed : C → Event C
  cleaned_up : Event C

-- What a run of the client meets: `done i` tells whether the context is done at the top of round
-- `i` of `reDialLoop`, and `redial i` what the dialing of that round meets.
pub record World {ℓ} (C : Type ℓ) : Type ℓ where
  pub done : ℕ → Bool
  pub redial : ℕ → Attempts C

module _ {ℓ} {C : Type ℓ} where
  -- `none` stands for a loop that still runs after so many rounds.
  unfoldable pub redial_loop : World C → ℕ → ℕ → Option (List (Event C))
  redial_loop w zero i = none
  redial_loop w (suc left) i = elim (w.done i) [
    | true ↦ some []
    -- Just one of the conn and the error is set (Dialing).
    | false ↦ elim (try_dial (w.redial i) client_reconnection_retry).conn [
      | none ↦ some []
      | some c ↦ elim (redial_loop w left (suc i)) [
        | none ↦ none
        | some events ↦ some (consumed c ∷ events)
      ]
    ]
  ]

  -- The goroutine of `startPolling`.
  unfoldable pub polling : World C → ℕ → C → Option (List (Event C))
  polling w rounds initial = elim (redial_loop w rounds 0) [
    | none ↦ none
    | some events ↦ some (consumed initial ∷ (events ++ cleaned_up ∷ []))
  ]

  -- `StartControlClient`: the conn to poll with, or an error and no client.
  unfoldable pub start_control_client : (Text → Attempts C) → Text → Result (Option C)
  unfolding with_default_port
  start_control_client dialer target =
      let full = with_default_port target in
      let d = try_dial (dialer full) client_initial_dial_retry in
      elim d.error [ some e ↦ err (wrapped (initial_dial_failed full) e) | none ↦ ok d.conn ]
