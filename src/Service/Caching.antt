-- ===== src/Service/Caching.antt =====
-- pkg/service/service_caching_wrapper.go
pub mod Interleaved
use control_protocol.Prelude.{
  ℕ, ◌≡◌, refl, ap, subst, ◌∙◌, ◌==ℕ◌, Bool, true, false, Bool-cases, Option, none, some, inl, inr,
  List, [], ◌∷◌, arith, if◌then◌else◌,
}
use control_protocol.Prelude.Equality.{Comparable, ◌==◌, ==_refl, nat_eq}
use control_protocol.Prelude.Maps.{Map, empty, lookup, insert, lookup-insert}
use control_protocol.Errors.{Error}

-- The wrapped service, with what it changes: `SendAndWaitForAck` returns an error or nil.
abbrev pub Send : Type 0 → Type 0 → Type 0
Send S P = S → ℕ → P → S × Option Error

-- `P` is the type of payloads, nil among them, and its `==` is `reflect.DeepEqual`.
pub record CachingService (S P : Type 0) : Type 0 where
  pub service : S
  pub sent_messages : Map ℕ P

module _ {P : Type 0} ⦃eq : Comparable P⦄ where
  -- `ok && reflect.DeepEqual(lastPayload, payload)`
  abbrev pub already_sent : Option P → P → Bool
  already_sent none payload = false
  already_sent (some last_payload) payload = last_payload == payload

module _ {S P : Type 0} ⦃eq : Comparable P⦄ where
  pub after_send :
      CachingService S P → ℕ → P → (S × Option Error) → CachingService S P × Option Error
  after_send c opcode payload (s, some e) = (record c { service = s }, some e)
  after_send c opcode payload (s, none) =
      (record { service = s; sent_messages = insert opcode payload c.sent_messages }, none)

  unfoldable pub send_and_wait_for_ack : Send S P → Send (CachingService S P) P
  unfolding after_send
  send_and_wait_for_ack send c opcode payload =
      if already_sent (lookup opcode c.sent_messages) payload
      then (c, none)
      else after_send c opcode payload (send c.service opcode payload)

  -- The service under the wrapper fails: the error is passed on, and the next try is sent again.
  pub caching_failure :
      (send : Send S P) (c : CachingService S P) (opcode : ℕ) (payload : P) (e : Error)
      → (send_and_wait_for_ack send c opcode payload).1 ≡ some e
      → ((send c.service opcode payload).1 ≡ some e)
        × ((send_and_wait_for_ack send c opcode payload).0.sent_messages ≡ c.sent_messages)
  unfolding send_and_wait_for_ack
  caching_failure send c opcode payload e h = ground arith

  -- A send that succeeded is not repeated: the same opcode and payload again reach the service under
  -- the wrapper no more, and succeed.
  pub caching_repeat :
      (send : Send S P) (c : CachingService S P) (opcode : ℕ) (payload : P)
      → (send_and_wait_for_ack send c opcode payload).1 ≡ none
      → let c' = (send_and_wait_for_ack send c opcode payload).0 in
        send_and_wait_for_ack send c' opcode payload ≡ (c', none)
  unfolding send_and_wait_for_ack
  caching_repeat send c opcode payload h =
      ground (
        arith,
        ==_refl payload,
        ==_refl opcode,
        lookup-insert opcode opcode payload c.sent_messages,
      )

-- What becomes of a send: it is delivered, with what `SendAndWaitForAck` returns then, which may be the
-- error of a timeout or the receiver's own; or it is not, with an error.
pub data Fate : Type 0 where
  arrives : Option Error → Fate
  gets_lost : Error → Fate

-- If the payload arrives, the send returned nil.
abbrev pub WasAccepted : Fate → Type 0
WasAccepted (arrives e) = e ≡ none
WasAccepted (gets_lost e) = Unit {0}

-- A receiver that keeps the last payload of each opcode, at the other end of sends.
module _ {P : Type 0} ⦃eq : Comparable P⦄ where
  abbrev pub deliver : Fate → Send (Map ℕ P) P
  deliver (arrives e) r opcode payload = (insert opcode payload r, e)
  deliver (gets_lost e) r opcode payload = (r, some e)

  -- Requests one after another, each with the fate of its send, if there is one.
  unfoldable pub send_all : {S : Type 0} → (Fate → Send S P) → S → List (ℕ × P × Fate) → S
  send_all send s [] = s
  send_all send s ((opcode, payload, fate) ∷ rest) =
      send_all send (send fate s opcode payload).0 rest

  -- No payload of the opcode arrives with an error.
  abbrev pub AreAccepted : ℕ → List (ℕ × P × Fate) → Type 0
  AreAccepted k [] = Unit {0}
  AreAccepted k ((opcode, payload, fate) ∷ rest) =
      ((opcode ==ℕ k) ≡ true → WasAccepted fate) × AreAccepted k rest

  -- At the opcode the receivers agree, and the cache knows the last payload of its receiver, if any.
  abbrev Agrees : ℕ → CachingService (Map ℕ P) P → Map ℕ P → Type 0
  Agrees k c r =
      (lookup k c.service ≡ lookup k r)
      × ((p : P) → lookup k c.sent_messages ≡ some p → lookup k c.service ≡ some p)

  pub known_payload :
      (o : Option P) (payload : P) → already_sent o payload ≡ true → o ≡ some payload
  known_payload none payload h = cc
  known_payload (some last_payload) payload h = ap some ((eq.equal_iff last_payload payload).0 h)

  -- The cache does not send what the receiver has.
  hit-Agrees :
      (k : ℕ) (fate : Fate) (c : CachingService (Map ℕ P) P) (r : Map ℕ P) (opcode : ℕ)
      (payload : P)
      → Agrees k c r
      → lookup opcode c.sent_messages ≡ some payload
      → Agrees k c (deliver fate r opcode payload).0
  hit-Agrees k (gets_lost e) c r opcode payload agree h = agree
  hit-Agrees k (arrives e) c r opcode payload (same, known) h = (
    elim (Bool-cases (opcode ==ℕ k)) [
      | inl at ↦
          known payload (
            subst (λ i. lookup i c.sent_messages ≡ some payload) ((nat_eq.equal_iff opcode k).0 at)
              h)
          ∙ ground (arith, at, lookup-insert opcode k payload r)
      | inr other ↦ same ∙ ground (arith, other, lookup-insert opcode k payload r)
    ],
    known,
  )

  miss-Agrees :
      (k : ℕ) (fate : Fate) (c : CachingService (Map ℕ P) P) (r : Map ℕ P) (opcode : ℕ)
      (payload : P)
      → ((opcode ==ℕ k) ≡ true → WasAccepted fate)
      → Agrees k c r
      → Agrees k
          (after_send c opcode payload (deliver fate c.service opcode payload)).0
          (deliver fate r opcode payload).0
  unfolding after_send
  miss-Agrees k (gets_lost e) c r opcode payload accepted agree = agree
  miss-Agrees k (arrives none) c r opcode payload accepted (same, known) = (
    ground
        (arith, same, lookup-insert opcode k payload r, lookup-insert opcode k payload c.service),
    λ p. ground (
      arith,
      known p,
      lookup-insert opcode k payload c.sent_messages,
      lookup-insert opcode k payload c.service,
    ),
  )
  miss-Agrees k (arrives (some e)) c r opcode payload accepted (same, known) =
      elim (Bool-cases (opcode ==ℕ k)) [
        | inl at ↦ absurd (ground (arith, accepted at))
        | inr other ↦ (
          ground (
            arith,
            same,
            other,
            lookup-insert opcode k payload r,
            lookup-insert opcode k payload c.service,
          ),
          λ p. ground (arith, known p, other, lookup-insert opcode k payload c.service),
        )
      ]

  send-Agrees :
      (k : ℕ) (fate : Fate) (c : CachingService (Map ℕ P) P) (r : Map ℕ P) (opcode : ℕ)
      (payload : P)
      → ((opcode ==ℕ k) ≡ true → WasAccepted fate)
      → Agrees k c r
      → Agrees k
          (send_and_wait_for_ack (deliver fate) c opcode payload).0
          (deliver fate r opcode payload).0
  unfolding send_and_wait_for_ack
  send-Agrees k fate c r opcode payload accepted agree =
      elim (Bool-cases (already_sent (lookup opcode c.sent_messages) payload)) [
        | inl hit ↦
            rw (hit, send_and_wait_for_ack)
              (hit-Agrees k fate c r opcode payload agree (known_payload _ payload hit))
        | inr miss ↦
            rw (miss, send_and_wait_for_ack) (miss-Agrees k fate c r opcode payload accepted agree)
      ]

  send_all-Agrees :
      (k : ℕ) (requests : List (ℕ × P × Fate)) (c : CachingService (Map ℕ P) P) (r : Map ℕ P)
      → AreAccepted k requests
      → Agrees k c r
      → Agrees k
          (send_all (λ fate. send_and_wait_for_ack (deliver fate)) c requests)
          (send_all deliver r requests)
  unfolding send_all
  send_all-Agrees k [] c r accepted h = h
  send_all-Agrees k ((opcode, payload, fate) ∷ rest) c r accepted h =
      send_all-Agrees k rest _ _ accepted.1 (send-Agrees k fate c r opcode payload accepted.0 h)

  Agrees-empty : (k : ℕ) → Agrees k (record { service = empty; sent_messages = empty }) empty
  Agrees-empty k = (refl, λ p h. h)

  -- To a receiver that keeps the last payload of each opcode, a sender behind a new cache looks, at one
  -- opcode, like one without it, whatever is sent and whichever sends get lost with an error, if no
  -- payload of the opcode is delivered by a send that then returns an error.
  pub caching_transparent :
      (requests : List (ℕ × P × Fate)) (k : ℕ)
      → AreAccepted k requests
      → lookup k
          (send_all
            (λ fate. send_and_wait_for_ack (deliver fate))
            (record { service = empty; sent_messages = empty })
            requests).service
        ≡ lookup k (send_all deliver empty requests)
  caching_transparent requests k accepted =
      (send_all-Agrees k requests (record { service = empty; sent_messages = empty }) empty accepted
        (Agrees-empty k)).0
