-- ===== src/Service/Caching/Interleaved.antt =====
-- pkg/service/service_caching_wrapper.go: calls of `SendAndWaitForAck` that interleave. The lock is held
-- for the look at the cache and for the change of it, and not for the send between them.
use mathlib.Core.List.{Memᴰ}
use control_protocol.Prelude.{
  ℕ, ◌≡◌, refl, sym, ◌∙◌, Option, none, some, List, [], ◌∷◌, arith, if◌then◌else◌, if_each,
}
use control_protocol.Prelude.Equality.{Comparable, ==_refl, nat_eq}
use control_protocol.Prelude.Maps.{
  Map, empty, lookup, insert, map_values, map_option, lookup-map_values, lookup-empty, insert_each,
}
use control_protocol.Errors.{Error}
use control_protocol.Service.Caching.{already_sent, known_payload}

-- Where a call with an opcode and a payload stands.
pub data CachedCall (P : Type 0) : Type 0 where
  checking sending storing : ℕ → P → CachedCall P
  returned : ℕ → P → Option Error → CachedCall P

-- The cache, what the service under it has delivered, the last one first, and the calls by number.
pub record CachedCalls (P : Type 0) : Type 0 where
  pub sent_messages : Map ℕ P
  pub delivered : List (ℕ × P)
  pub calls : Map ℕ (CachedCall P)

abbrev in_turn : List ℕ → List (ℕ × Option Error)
in_turn [] = []
in_turn (i ∷ order) = (i, none) ∷ in_turn order

module _ {P : Type 0} ⦃eq : Comparable P⦄ where
  put_call : CachedCalls P → ℕ → CachedCall P → CachedCalls P
  put_call c i call = record c { calls = insert i call c.calls }

  -- The next step of call `i`; a send has the outcome `e`.
  advance_call : CachedCalls P → ℕ → Option Error → CachedCall P → CachedCalls P
  unfolding put_call
  advance_call c i e (checking opcode payload) =
      if already_sent (lookup opcode c.sent_messages) payload
      then put_call c i (returned opcode payload none)
      else put_call c i (sending opcode payload)
  advance_call c i (some e) (sending opcode payload) =
      put_call c i (returned opcode payload (some e))
  advance_call c i none (sending opcode payload) =
      put_call (record c { delivered = (opcode, payload) ∷ c.delivered }) i (storing opcode payload)
  advance_call c i e (storing opcode payload) =
      put_call (record c { sent_messages = insert opcode payload c.sent_messages }) i
        (returned opcode payload none)
  advance_call c i e (returned opcode payload result) = c

  unfoldable pub call_step : CachedCalls P → ℕ → Option Error → CachedCalls P
  unfolding advance_call
  call_step c i e = elim (lookup i c.calls) [ none ↦ c | some call ↦ advance_call c i e call ]

  unfoldable pub run_calls : CachedCalls P → List (ℕ × Option Error) → CachedCalls P
  run_calls c [] = c
  run_calls c ((i, e) ∷ schedule) = run_calls (call_step c i e) schedule

  abbrev pub begin_calls : Map ℕ (ℕ × P) → CachedCalls P
  begin_calls requests = record {
    sent_messages = empty;
    delivered = [];
    calls = map_values (λ request. checking request.0 request.1) requests;
  }

  -- What a call that has come so far owes to the service.
  abbrev Owes : List (ℕ × P) → CachedCall P → Type 0
  Owes delivered (checking opcode payload) = Unit {0}
  Owes delivered (sending opcode payload) = Unit {0}
  Owes delivered (storing opcode payload) = Memᴰ (opcode, payload) delivered
  Owes delivered (returned opcode payload none) = Memᴰ (opcode, payload) delivered
  Owes delivered (returned opcode payload (some e)) = Unit {0}

  record IsHonest (c : CachedCalls P) : Type 0 where
    cached :
        (opcode : ℕ) (payload : P)
        → lookup opcode c.sent_messages ≡ some payload
        → Memᴰ (opcode, payload) c.delivered
    owed : (i : ℕ) (call : CachedCall P) → lookup i c.calls ≡ some call → Owes c.delivered call

  Owes-later :
      (x : ℕ × P) (delivered : List (ℕ × P)) (call : CachedCall P)
      → Owes delivered call
      → Owes (x ∷ delivered) call
  Owes-later x delivered (checking opcode payload) h = tt
  Owes-later x delivered (sending opcode payload) h = tt
  Owes-later x delivered (storing opcode payload) h = Memᴰ.tail h
  Owes-later x delivered (returned opcode payload none) h = Memᴰ.tail h
  Owes-later x delivered (returned opcode payload (some e)) h = tt

  put_call-IsHonest :
      (c : CachedCalls P) (i : ℕ) (call : CachedCall P)
      → IsHonest c
      → Owes c.delivered call
      → IsHonest (put_call c i call)
  unfolding put_call
  put_call-IsHonest c i call h owes = record {
    cached = h.cached;
    owed = insert_each (λ j other. Owes c.delivered other) i call c.calls owes h.owed;
  }

  advance_call-IsHonest :
      (c : CachedCalls P) (i : ℕ) (e : Option Error) (call : CachedCall P)
      → lookup i c.calls ≡ some call
      → IsHonest c
      → IsHonest (advance_call c i e call)
  unfolding advance_call
  advance_call-IsHonest c i e (checking opcode payload) at h =
      if_each IsHonest (already_sent (lookup opcode c.sent_messages) payload)
        (λ hit.
          put_call-IsHonest c i (returned opcode payload none) h
            (h.cached opcode payload (known_payload (lookup opcode c.sent_messages) payload hit)))
        (λ miss. put_call-IsHonest c i (sending opcode payload) h tt)
  advance_call-IsHonest c i (some e) (sending opcode payload) at h =
      put_call-IsHonest c i (returned opcode payload (some e)) h tt
  advance_call-IsHonest c i none (sending opcode payload) at h =
      put_call-IsHonest (record c { delivered = (opcode, payload) ∷ c.delivered }) i
        (storing opcode payload)
        (record {
          cached = λ k p e. Memᴰ.tail (h.cached k p e);
          owed = λ j other e. Owes-later (opcode, payload) c.delivered other (h.owed j other e);
        })
        (Memᴰ.head refl)
  advance_call-IsHonest c i e (storing opcode payload) at h =
      put_call-IsHonest (record c { sent_messages = insert opcode payload c.sent_messages }) i
        (returned opcode payload none)
        (record {
          cached =
              insert_each (λ k p. Memᴰ (k, p) c.delivered) opcode payload c.sent_messages
                (h.owed i (storing opcode payload) at) h.cached;
          owed = h.owed;
        })
        (h.owed i (storing opcode payload) at)
  advance_call-IsHonest c i e (returned opcode payload result) at h = h

  call_step-IsHonest :
      (c : CachedCalls P) (i : ℕ) (e : Option Error) → IsHonest c → IsHonest (call_step c i e)
  unfolding call_step
  call_step-IsHonest c i e h = at (lookup i c.calls) refl
    where
      at :
          (o : Option (CachedCall P))
          → lookup i c.calls ≡ o
          → IsHonest
              (elim o as (λ o. CachedCalls P) [ none ↦ c | some call ↦ advance_call c i e call ])
      at none p = h
      at (some call) p = advance_call-IsHonest c i e call p h

  run_calls-IsHonest :
      (schedule : List (ℕ × Option Error)) (c : CachedCalls P)
      → IsHonest c
      → IsHonest (run_calls c schedule)
  unfolding run_calls
  run_calls-IsHonest [] c h = h
  run_calls-IsHonest ((i, e) ∷ schedule) c h =
      run_calls-IsHonest schedule (call_step c i e) (call_step-IsHonest c i e h)

  begin_calls-IsHonest : (requests : Map ℕ (ℕ × P)) → IsHonest (begin_calls requests)
  begin_calls-IsHonest requests = record {
    cached = λ opcode payload h. absurd (ground (arith, h, lookup-empty {V = P} opcode));
    owed = λ i call h.
        begun (lookup i requests) call
          (sym (lookup-map_values (λ request. checking request.0 request.1) i requests) ∙ h);
  }
    where
      begun :
          (o : Option (ℕ × P)) (call : CachedCall P)
          → map_option (λ request. checking request.0 request.1) o ≡ some call
          → Owes [] call
      begun none call h = absurd (ground (arith, h))
      begun (some (opcode, payload)) (checking o p) h = tt
      begun (some (opcode, payload)) (sending o p) h = tt
      begun (some (opcode, payload)) (storing o p) h = absurd (ground (arith, h))
      begun (some (opcode, payload)) (returned o p e) h = absurd (ground (arith, h))

  -- However the calls of a new caching service interleave, and whatever sends fail, each call that
  -- returned nil has a payload that was delivered under its opcode.
  pub run_calls-delivered :
      (requests : Map ℕ (ℕ × P)) (schedule : List (ℕ × Option Error)) (i opcode : ℕ) (payload : P)
      → lookup i (run_calls (begin_calls requests) schedule).calls
        ≡ some (returned opcode payload none)
      → Memᴰ (opcode, payload) (run_calls (begin_calls requests) schedule).delivered
  run_calls-delivered requests schedule i opcode payload h =
      IsHonest.owed
        (run_calls-IsHonest schedule (begin_calls requests) (begin_calls-IsHonest requests)) i
        (returned opcode payload none) h

  -- Two calls with one opcode whose sends and stores cross leave the payload of the first in the cache, but
  -- that of the second with the receiver: a third call, with the payload of the first, returns nil and
  -- sends nothing.
  run_calls_stale :
      (opcode : ℕ) (p q : P)
      → let requests : Map ℕ (ℕ × P) =
          insert 0 (opcode, p) (insert 1 (opcode, q) (insert 2 (opcode, p) empty)) in
        let c = run_calls (begin_calls requests) (in_turn (0 ∷ 0 ∷ 1 ∷ 1 ∷ 1 ∷ 0 ∷ 2 ∷ [])) in
        (lookup 2 c.calls ≡ some (returned opcode p none))
        × (c.delivered ≡ (opcode, q) ∷ (opcode, p) ∷ [])
  unfolding run_calls call_step advance_call put_call lookup insert empty map_values
  run_calls_stale opcode p q = ground (arith, ==_refl p, ==_refl opcode)
