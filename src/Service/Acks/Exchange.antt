-- ===== src/Service/Acks/Exchange.antt =====
-- pkg/service/service.go: a message, its handler at the other end, and the ack that comes back, among
-- the other messages that the sender accepts in the meantime.
use control_protocol.Prelude.{
  ℕ, ◌≡◌, ◌≢◌, refl, sym, ap, subst, ◌∙◌, Option, some, inl, inr, List, [], ◌∷◌, ◌++◌, arith,
}
use control_protocol.Prelude.Equality.{nat_eq}
use control_protocol.Errors.{Error, Result, ok, ok_inj, ◌>>=◌}
use control_protocol.Message.{Message, new_message}
use control_protocol.Message.Format.{received}
use control_protocol.Service.{ack_op_code, acks}
use control_protocol.Service.Acks.{
  Service, Outcome, goes_on, blocks, panics, new_ack_message, send_start, accept, run_handler,
  ack_messages, after_accept, accept_all, send, marshalled, send_result_of, ack_case,
}
use control_protocol.Service.Acks.Delivery.{
  Waits, Fits, conveyed, ack_of, acked, send_start-Waits, accept-acked,
}
use control_protocol.Service.Acks.Isolation.{IsTidy, send_start-IsTidy, accept-IsTidy, accept-Waits}

pub goes_on_inj : {S : Type 0} (c d : Service S) → goes_on c ≡ goes_on d → c ≡ d
goes_on_inj c d h = ap (λ o. elim o [ goes_on x ↦ x | blocks ↦ c | panics ↦ c ]) h

-- No message of the list has this uuid.
unfoldable pub Others : List ℕ → List Message → Type 0
Others uuid [] = Unit
Others uuid (m ∷ ms) = (m.uuid ≢ uuid) × Others uuid ms

module _ {S : Type 0} where
  -- A goroutine that waits in a tidy state is found so.
  Tidy : Service S → List ℕ → ℕ → Type 0
  Tidy c uuid i = IsTidy c × Waits c uuid i

  after_accept-Tidy :
      (c d : Service S) (m : Message) (ms : List Message) (uuid : List ℕ) (i : ℕ)
      → Tidy c uuid i
      → m.uuid ≢ uuid
      → ((c' : Service S) → Tidy c' uuid i → accept_all c' ms ≡ goes_on d → Tidy d uuid i)
      → (r : Outcome S) → accept c m ≡ r
      → after_accept c r (λ c'. accept_all c' ms) ≡ goes_on d
      → Tidy d uuid i
  unfolding after_accept Tidy
  after_accept-Tidy c d m ms uuid i t n later (goes_on c') p q =
      later c' (accept-IsTidy c c' m t.0 p, accept-Waits c c' m uuid i t.0 t.1 n p) q
  after_accept-Tidy c d m ms uuid i t n later blocks p q = later c t q
  after_accept-Tidy c d m ms uuid i t n later panics p q = absurd (ground (arith, q))

  accept_all-Tidy :
      (c d : Service S) (ms : List Message) (uuid : List ℕ) (i : ℕ)
      → Tidy c uuid i
      → Others uuid ms
      → accept_all c ms ≡ goes_on d
      → Tidy d uuid i
  unfolding accept_all Others
  accept_all-Tidy c d [] uuid i t o h = subst (λ x. Tidy x uuid i) (goes_on_inj c d h) t
  accept_all-Tidy c d (m ∷ ms) uuid i t o h =
      after_accept-Tidy c d m ms uuid i t o.0 (λ c' t' q. accept_all-Tidy c' d ms uuid i t' o.1 q)
        (accept c m) refl h

  send_start-Tidy :
      (c c' : Service S) (uuid : List ℕ) (opcode : ℕ) (payload : Option (List ℕ)) (i : ℕ)
      → IsTidy c
      → send_start c uuid opcode payload ≡ ok (c', i)
      → (opcode ≢ ack_op_code) × Tidy c' uuid i
  unfolding Tidy
  send_start-Tidy c c' uuid opcode payload i t h = elim (send_start-Waits c uuid opcode payload) [
    | inl (is_ack, e) ↦ absurd (ground (arith, h, e))
    | inr (other, d, e, out, w) ↦ (
      other,
      subst (λ r. Tidy r.0 uuid r.1) (ok_inj (d, c.next_channel) (c', i) (sym e ∙ h))
          (send_start-IsTidy c d uuid opcode payload c.next_channel t e, w),
    )
  ]

-- The handler's state after a message that is no ack.
pub accept_handled :
    {S : Type 0} (c d : Service S) (m : Message)
    → m.opcode ≢ ack_op_code
    → accept_all c (m ∷ []) ≡ goes_on d
    → d.handler_state ≡ (c.handler c.handler_state m).0
unfolding accept_all after_accept accept run_handler
accept_handled c d m n h = sym (
    ap (λ x. x.handler_state)
      (goes_on_inj (run_handler c m (c.handler c.handler_state m)) d (ground (arith, n, h))))

-- A handler that acks once has the service write one ack.
pub accept-acks :
    {T : Type 0} (b : Service T) (m : Message) (t : T) (e : Option Error)
    → m.opcode ≢ ack_op_code
    → b.handler b.handler_state m ≡ (t, acks e ∷ [])
    → (b' : Service T) × (accept b m ≡ goes_on b')
      × (b'.outbox ≡ b.outbox ++ new_ack_message m.uuid e ∷ [])
unfolding accept run_handler ack_messages
accept-acks b m t e n k = (run_handler b m (t, acks e ∷ []), ground (arith, n, k), refl)

received-opcode :
    (uuid : List ℕ) (opcode : ℕ) (bytes : Option (List ℕ))
    → (received (new_message uuid opcode bytes [])).opcode ≡ opcode
unfolding received new_message
received-opcode uuid opcode bytes = refl

module _ {S T : Type 0} where
  -- Between two services, the message `sent` of a goroutine of `a` reaches `b`, whose handler acks it
  -- with `e`; then the ack comes back to `a`.
  pub record Exchanged (a : Service S) (b : Service T) (uuid : List ℕ) (i : ℕ) (sent : Message)
      (e : Option Error) : Type 0 where
    pub handled :
        (b' : Service T) × (accept b (received sent) ≡ goes_on b')
        × (b'.outbox ≡ b.outbox ++ new_ack_message uuid e ∷ [])
    pub returned :
        (a' : Service S) × (accept a (ack_of uuid e) ≡ goes_on a')
        × (send_result_of a' i ack_case ≡ some (conveyed e))

  -- A call of `SendAndWaitForAck` that got its message sent returns what the other side's handler
  -- acked, as its text: whatever messages of other uuids its service accepts in the meantime, and in
  -- whatever order, if none of them makes it panic.
  pub accept_all-Exchanged :
      (a a' a'' : Service S) (b : Service T) (uuid : List ℕ) (opcode : ℕ)
      (payload : Option (Result (List ℕ))) (bytes : Option (List ℕ)) (i : ℕ) (ms : List Message)
      (t : T) (e : Option Error)
      → IsTidy a
      → marshalled payload ≡ ok bytes
      → send a uuid opcode payload ≡ ok (a', i)
      → Others uuid ms
      → accept_all a' ms ≡ goes_on a''
      → b.handler b.handler_state (received (new_message uuid opcode bytes [])) ≡ (t, acks e ∷ [])
      → Fits e
      → Exchanged a'' b uuid i (new_message uuid opcode bytes []) e
  unfolding send Tidy send_result_of received new_message
  accept_all-Exchanged a a' a'' b uuid opcode payload bytes i ms t e tidy p h o run k f = record {
    handled =
        accept-acks b (received (new_message uuid opcode bytes [])) t e
          (λ q.
            (send_start-Tidy a a' uuid opcode bytes i tidy started).0
              (sym (received-opcode uuid opcode bytes) ∙ q))
          k;
    returned =
        let (accepts, ready) = accept-acked a'' uuid i e waiting.1 f in
        (acked a'' i (conveyed e), accepts, ready);
  }
    where
      started : send_start a uuid opcode bytes ≡ ok (a', i)
      started = ap (λ r. r >>= send_start a uuid opcode) (sym p) ∙ h

      waiting : Tidy a'' uuid i
      waiting =
          accept_all-Tidy a' a'' ms uuid i (send_start-Tidy a a' uuid opcode bytes i tidy started).1
            o run
