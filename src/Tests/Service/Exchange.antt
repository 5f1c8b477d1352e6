-- ===== src/Tests/Service/Exchange.antt =====
-- pkg/service: a message that another service's handler refuses, and what its sender gets.
use control_protocol.Prelude.{ℕ, ◌≡◌, refl, some, [], ◌∷◌, arith}
use control_protocol.Errors.{ok}
use control_protocol.Message.{new_message}
use control_protocol.Service.{Handler, acks}
use control_protocol.Service.Acks.{
  Service, new_service, send, send_start, accept_all, accept, marshalled, goes_on,
}
use control_protocol.Service.Acks.Isolation.{new_service-IsTidy}
use control_protocol.Service.Acks.Exchange.{Exchanged, Others, accept_all-Exchanged}
use control_protocol.Tests.Message.{uuid}
use control_protocol.Tests.Service.{idle_service, other_hello, refusal, refusal-Fits}

abbrev refuse_all : Handler ℕ
refuse_all n m = (n, acks (some refusal) ∷ [])

sent : (c : Service ℕ) × (send idle_service uuid 7 (some (ok (1 ∷ []))) ≡ ok (c, 0))
unfolding send send_start marshalled new_service
sent = (_, refl)

accepted : (c : Service ℕ) × (accept_all sent.0 (other_hello ∷ []) ≡ goes_on c)
unfolding accept_all accept new_message sent send_start new_service
accepted = (_, refl)

accept_all-Exchanged_example :
    Exchanged accepted.0
      (new_service refuse_all 0)
      uuid
      0
      (new_message uuid 7 (some (1 ∷ [])) [])
      (some refusal)
unfolding marshalled Others new_message new_service
accept_all-Exchanged_example =
    accept_all-Exchanged idle_service sent.0 accepted.0 (new_service refuse_all 0) uuid 7
      (some (ok (1 ∷ []))) (some (1 ∷ [])) 0 (other_hello ∷ []) 0 (some refusal)
      (new_service-IsTidy idle_service.handler 0) refl sent.1 (ground arith, tt) accepted.1 refl
      refusal-Fits
