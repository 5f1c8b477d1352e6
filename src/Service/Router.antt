-- ===== src/Service/Router.antt =====
-- pkg/service/message_router.go
use control_protocol.Prelude.{
  ℕ, ◌+◌, ◌/◌, ◌%◌, ◌≡◌, none, some, [], ◌∷◌, ◌++◌, arith, ltb, if◌then◌else◌, codes,
}
use control_protocol.Prelude.Equality.{nat_eq}
use control_protocol.Prelude.Maps.{Map, lookup}
use control_protocol.Errors.{Error, Text, plain}
use control_protocol.Message.{Message}
use control_protocol.Service.{Handler, ack_with_error}

-- `%d` of a `uint8`
abbrev pub digits : ℕ → Text
digits n =
    if ltb n 10
    then (b'0' + n) ∷ []
    else (if ltb n 100
        then (b'0' + n / 10) ∷ (b'0' + n % 10) ∷ []
        else (b'0' + n / 100) ∷ (b'0' + n / 10 % 10) ∷ (b'0' + n % 10) ∷ [])

abbrev pub unknown_op_code : ℕ → Error
unknown_op_code opcode = plain (
    codes "received an unknown opcode '"
    ++ digits opcode
    ++ codes "', I don't know what to do with it")

abbrev pub MessageRouter : Type 0 → Type 0
MessageRouter S = Map ℕ (Handler S)

module _ {S : Type 0} where
  -- `MessageRouter.HandleServiceMessage`
  unfoldable pub route : MessageRouter S → Handler S
  route c s m = elim (lookup m.opcode c) [
    | some handler ↦ handler s m
    | none ↦ (s, ack_with_error (unknown_op_code m.opcode) ∷ [])
  ]

  -- A message goes to the handler of its opcode, which alone decides what is acked; without one it
  -- is acked once, with an error, and no handler's state changes.
  pub route_cases :
      (c : MessageRouter S) (s : S) (m : Message)
      → ((handler : Handler S) → lookup m.opcode c ≡ some handler → route c s m ≡ handler s m)
        × (lookup m.opcode c ≡ none
            → route c s m ≡ (s, ack_with_error (unknown_op_code m.opcode) ∷ []))
  unfolding route
  route_cases c s m = (λ handler e. ground arith, λ e. ground arith)
