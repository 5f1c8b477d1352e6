-- ===== src/Reconciler/CommandResults/Delivered.antt =====
-- The result of a command, from the pod's handler through two services and the controller's router to
-- the query of the store.
use control_protocol.Prelude.{
  ℕ, ◌<◌, ◌^◌, ◌≡◌, refl, sym, ap, ◌∙◌, Option, none, some, List, [], ◌∷◌, length, if◌then◌else◌,
  arith,
}
use control_protocol.Prelude.Equality.{Comparable, ==_refl, nat_eq, bytes_equal}
use control_protocol.Prelude.Maps.{lookup}
use control_protocol.Errors.{Error, ok}
use control_protocol.Wire.Writer.{Writer}
use control_protocol.Message.{Message, new_message}
use control_protocol.Message.Format.{bytes_of, received}
use control_protocol.AsyncCommand.{AsyncCommandResult, returns, marshal_binary}
use control_protocol.AsyncCommand.RoundTrip.{Fits}
use control_protocol.Service.{Effect, sends, ack, Handler}
use control_protocol.Service.Acks.{
  Service, marshalled, goes_on, send, accept_all, send_result_of, ack_case,
}
use control_protocol.Service.Acks.Exchange.{accept_handled}
use control_protocol.Service.Acks.OverTheWire.{Link, Link-request, Link-send}
use control_protocol.Service.Router.{MessageRouter, route, route_cases}
use control_protocol.Service.AsyncHandler.{AsyncCommand, AsyncCommandMessage, notify_failed}
use control_protocol.Service.AsyncHandler.Results.{text_of, notified, notify_failed-sends}
use control_protocol.Reconciler.NotificationStore.{NotificationStore}
use control_protocol.Reconciler.CommandResults.{
  command_result_handler, get_command_result, get-command_result_handler, result_eq,
}

received-payload :
    (uuid : List ℕ) (opcode : ℕ) (bytes : List ℕ)
    → length bytes < 2 ^ 32
    → bytes_of (received (new_message uuid opcode (some bytes) [])).payload ≡ bytes
unfolding received new_message
received-payload uuid opcode [] f = refl
received-payload uuid opcode (b ∷ bytes) f = ground arith

received-opcode :
    (uuid : List ℕ) (opcode : ℕ) (bytes : Option (List ℕ))
    → (received (new_message uuid opcode bytes [])).opcode ≡ opcode
unfolding received new_message
received-opcode uuid opcode none = refl
received-opcode uuid opcode (some bytes) = refl

module _ {ℓ} {W : Type ℓ} (io : Writer W) {K P : Type 0} ⦃k : Comparable K⦄ ⦃p : Comparable P⦄ where
  -- A pod's notification of a command's result, where it goes through the loops of two connections
  -- each way to an idle controller whose router has the store's handler under the result's opcode, is
  -- acked with nil, and then the query for the command under that pod gives the result, with the
  -- error's text, and the query for any other command of the pod gives nothing.
  pub get-delivered :
      {S C : Type 0} (command : AsyncCommand C) (ac : AsyncCommandMessage C) (e : Option Error)
      (a a' : Service S) (b b' : Service (NotificationStore K P AsyncCommandResult))
      (r : MessageRouter (NotificationStore K P AsyncCommandResult))
      (h : Handler (NotificationStore K P AsyncCommandResult)) (src : K) (pod : P) (uuid : List ℕ)
      (opcode : ℕ) (bytes : List ℕ) (i : ℕ) (request reply : List Message)
      → a.outbox ≡ []
      → b.outbox ≡ []
      → b.handler ≡ route r
      → lookup opcode r ≡ some h
      → ((n n' : NotificationStore K P AsyncCommandResult) (m : Message) (effects : List Effect)
          → command_result_handler src pod n m ≡ returns (n', effects)
          → h n m ≡ (n', effects))
      → Fits (command.serialized_id ac.parsed_command) (text_of e)
      → notify_failed command ac e ≡ sends opcode (some bytes)
      → length bytes < 2 ^ 32
      → length uuid ≡ 16
      → send a uuid opcode (some (ok bytes)) ≡ ok (a', i)
      → Link io a'.outbox request
      → accept_all b request ≡ goes_on b'
      → Link io b'.outbox reply
      → ((a'' : Service S) × (accept_all a' reply ≡ goes_on a'')
          × (send_result_of a'' i ack_case ≡ some none))
        × ((id : List ℕ)
            → get_command_result b'.handler_state src pod id
              ≡ returns (
                  if bytes_equal (command.serialized_id ac.parsed_command) id
                  then some (record {
                    command_id = command.serialized_id ac.parsed_command;
                    error = text_of e;
                  })
                  else none))
  unfolding marshalled
  get-delivered command ac e a a' b b' r h src pod uuid opcode bytes i request reply a_idle b_idle
        routes finds agrees fits sent small u q there run back =
      let m = received (new_message uuid opcode (some bytes) []) in
      let res = notified command ac e in
      let same : bytes ≡ marshal_binary res =
        ground (arith, sym sent ∙ notify_failed-sends command ac e) in
      let (n', stored, query) =
        get-command_result_handler b.handler_state src pod m res fits
          (received-payload uuid opcode bytes small ∙ same) in
      let handled : b.handler b.handler_state m ≡ (n', ack ∷ []) =
        ap (λ f. f b.handler_state m) routes
        ∙ (route_cases r b.handler_state m).0 h
            (ap (λ o. lookup o r) (received-opcode uuid opcode (some bytes)) ∙ finds)
        ∙ agrees b.handler_state n' m (ack ∷ []) stored in
      let (other, waits, asked) =
        Link-request io a a' uuid opcode (some (ok bytes)) (some bytes) i request a_idle u refl
          small q there in
      let state : b'.handler_state ≡ n' =
        accept_handled b b' m (λ o. other (sym (received-opcode uuid opcode (some bytes)) ∙ o))
          (sym (ap (accept_all b) asked) ∙ run)
        ∙ ap (λ x. x.0) handled in
      (
        Link-send io a a' b b' uuid opcode (some (ok bytes)) (some bytes) i n' none request reply
            a_idle b_idle u refl small q there handled tt run back,
        λ id.
            ap (λ n. get_command_result n src pod id) state
            ∙ query src pod id
            ∙ ground (arith, ==_refl src, ==_refl pod),
      )
