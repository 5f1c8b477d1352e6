-- ===== src/Service/Acks/Delivery.antt =====
-- pkg/service/service.go: an ack and the goroutine of the message that it acks.
use control_protocol.Prelude.{
  ℕ, ◌<◌, ◌^◌, ◌≡◌, ◌≢◌, refl, ap, ◌∙◌, ◌⊎◌, true, false, Bool-cases, Option, none, some, inl, inr,
  List, [], ◌∷◌, ◌++◌, arith, ◌==ℕ◌, length,
}
use control_protocol.Prelude.Equality.{nat_eq, bytes_eq, ==_refl}
use control_protocol.Prelude.Maps.{lookup, insert, lookup-insert, lookup-erase}
use control_protocol.Errors.{Error, Text, plain, error_text, ok, err}
use control_protocol.Message.{Message, new_message}
use control_protocol.Message.Format.{received}
use control_protocol.Service.{ack_op_code}
use control_protocol.Service.Acks.{
  Service, goes_on, panics, carried_error, new_ack_message, send_start, send_end, ack_ready,
  put_ack, fill, accept_ack, accept, after_accept, accept_all, write_message, register_ack,
  cannot_send_ack,
}

-- The error that arrives for one that was acked: its text, if that is not empty.
abbrev pub conveyed_text : Text → Option Error
conveyed_text [] = none
conveyed_text (b ∷ text) = some (plain (b ∷ text))

abbrev pub conveyed : Option Error → Option Error
conveyed none = none
conveyed (some e) = conveyed_text (error_text e)

-- The text fits the length field of a message.
abbrev pub Fits : Option Error → Type 0
Fits none = Unit {0}
Fits (some e) = length (error_text e) < 2 ^ 32

-- The ack as it is read off the wire.
abbrev pub ack_of : List ℕ → Option Error → Message
ack_of uuid e = received (new_ack_message uuid e)

carried-text :
    (uuid : List ℕ) (e : Error) (text : Text)
    → error_text e ≡ text
    → length text < 2 ^ 32
    → carried_error (ack_of uuid (some e)) ≡ conveyed_text text
unfolding received new_ack_message new_message
carried-text uuid e [] h f = ground (arith, ap length h)
carried-text uuid e (b ∷ text) h f = ground (arith, ap length h)

carried-ack_of :
    (uuid : List ℕ) (e : Option Error) → Fits e → carried_error (ack_of uuid e) ≡ conveyed e
unfolding received new_ack_message new_message
carried-ack_of uuid none f = refl
carried-ack_of uuid (some e) f = carried-text uuid e (error_text e) refl f

ack_of-uuid : (uuid : List ℕ) (e : Option Error) → (ack_of uuid e).uuid ≡ uuid
unfolding received new_ack_message new_message
ack_of-uuid uuid none = refl
ack_of-uuid uuid (some e) = refl

ack_of-opcode : (uuid : List ℕ) (e : Option Error) → (ack_of uuid e).opcode ≡ ack_op_code
unfolding received new_ack_message new_message
ack_of-opcode uuid none = refl
ack_of-opcode uuid (some e) = refl

module _ {S : Type 0} where
  -- A goroutine waits for the ack of `uuid` on channel `i`, which nobody has used yet.
  pub record Waits (c : Service S) (uuid : List ℕ) (i : ℕ) : Type 0 where
    pub registered : lookup uuid c.waiting_acks ≡ some i
    pub unused : lookup i c.channels ≡ some (record { holds = none; closed = false })

  accept-ack_of :
      (c : Service S) (uuid : List ℕ) (e : Option Error)
      → Fits e
      → accept c (ack_of uuid e) ≡ accept_ack c (ack_of uuid e) (lookup uuid c.waiting_acks)
  unfolding accept
  accept-ack_of c uuid e f = ground (arith, ack_of-opcode uuid e, ack_of-uuid uuid e)

  -- The state in which the ack `e` is in channel `i`.
  abbrev pub acked : Service S → ℕ → Option Error → Service S
  acked c i e = record c {
    channels = insert i (record { holds = some e; closed = true }) c.channels;
  }

  -- `SendAndWaitForAck` refuses the opcode of acks, and for any other has its goroutine wait on a
  -- channel of its own.
  pub send_start-Waits :
      (c : Service S) (uuid : List ℕ) (opcode : ℕ) (payload : Option (List ℕ))
      → ((opcode ≡ ack_op_code) × (send_start c uuid opcode payload ≡ err cannot_send_ack))
        ⊎ ((opcode ≢ ack_op_code)
            × (c' : Service S) × (send_start c uuid opcode payload ≡ ok (c', c.next_channel))
            × (c'.outbox ≡ c.outbox ++ new_message uuid opcode payload [] ∷ [])
            × Waits c' uuid c.next_channel)
  unfolding send_start register_ack write_message
  send_start-Waits c uuid opcode payload = elim (Bool-cases (opcode ==ℕ ack_op_code)) [
    | inl is_ack ↦ inl (ground arith, ground arith)
    | inr other ↦ inr (
      ground arith,
      write_message (register_ack c uuid) (new_message uuid opcode payload []),
      ground arith,
      refl,
      record {
        registered =
            ground (arith, lookup-insert uuid uuid c.next_channel c.waiting_acks, ==_refl uuid);
        unused = ground (
          arith,
          lookup-insert c.next_channel c.next_channel (record { holds = none; closed = false })
              c.channels,
          ==_refl c.next_channel,
        );
      },
    )
  ]

  -- The ack of a waiting goroutine, read off the wire, fills its channel: the goroutine returns the
  -- error that was acked, as its text, or nil where that is empty.
  pub accept-acked :
      (c : Service S) (uuid : List ℕ) (i : ℕ) (e : Option Error)
      → Waits c uuid i
      → Fits e
      → (accept c (ack_of uuid e) ≡ goes_on (acked c i (conveyed e)))
        × (ack_ready (acked c i (conveyed e)) i ≡ some (conveyed e))
  unfolding accept_ack put_ack fill ack_ready
  accept-acked c uuid i e w f = (
    accept-ack_of c uuid e f ∙ ground (arith, w, carried-ack_of uuid e f),
    ground (
      arith,
      lookup-insert i i (record { holds = some (conveyed e); closed = true }) c.channels,
      ==_refl i,
    ),
  )

  -- A second ack of the same message, accepted before its goroutine has left `SendAndWaitForAck`, is sent
  -- on the channel that accepting the first one closed: the service panics, whatever was to come after it.
  pub accept-twice :
      (c : Service S) (uuid : List ℕ) (i : ℕ) (e f : Option Error) (rest : List Message)
      → Waits c uuid i
      → Fits e
      → Fits f
      → accept_all c (ack_of uuid e ∷ ack_of uuid f ∷ rest) ≡ panics
  unfolding accept_all after_accept accept_ack put_ack fill
  accept-twice c uuid i e f rest w fits_e fits_f =
      let c1 = acked c i (conveyed e) in
      let second : accept c1 (ack_of uuid f) ≡ panics =
        accept-ack_of c1 uuid f fits_f
        ∙ ground (
          arith,
          w,
          ==_refl i,
          lookup-insert i i (record { holds = some (conveyed e); closed = true }) c.channels,
        ) in
      ap (λ r. after_accept c r (λ c'. accept_all c' (ack_of uuid f ∷ rest)))
        (accept-acked c uuid i e w fits_e).0
      ∙ ap (λ r. after_accept c1 r (λ c'. accept_all c' rest)) second

  -- An ack that arrives when its goroutine has left `SendAndWaitForAck`, as after a timeout, changes
  -- nothing.
  pub accept-late :
      (c : Service S) (uuid : List ℕ) (e : Option Error)
      → Fits e
      → accept (send_end c uuid) (ack_of uuid e) ≡ goes_on (send_end c uuid)
  unfolding accept_ack send_end
  accept-late c uuid e f =
      accept-ack_of (send_end c uuid) uuid e f
      ∙ ground (arith, ==_refl uuid, lookup-erase uuid uuid c.waiting_acks)
