-- ===== src/Network/Client/Life.antt =====
-- When the client ends.
use control_protocol.Prelude.{
  ℕ, zero, suc, ◌+◌, ◌≤◌, ◌<◌, ◌≡◌, subst, true, false, Bool-cases, Option-cases, none, some, inl,
  inr, List, [], ◌∷◌, ◌++◌, arith, length,
}
use control_protocol.Errors.{Error, err}
use control_protocol.Network.Client.{
  Dialed, try_dial, World, Event, consumed, cleaned_up, redial_loop, polling,
  client_reconnection_retry,
}
use control_protocol.Network.Client.Dialing.{try_dial_iff}

module _ {ℓ} {C : Type ℓ} (w : World C) where
  -- The dialing of round `i`.
  abbrev dialed : ℕ → Dialed C
  dialed i = try_dial (w.redial i) client_reconnection_retry

  loop_done : (left i : ℕ) → w.done i ≡ true → redial_loop w (suc left) i ≡ some []
  unfolding redial_loop
  loop_done left i h = ground arith

  loop_given_up :
      (left i : ℕ)
      → w.done i ≡ false
      → (dialed i).conn ≡ none
      → redial_loop w (suc left) i ≡ some []
  unfolding redial_loop
  loop_given_up left i h d = ground arith

  loop_reconnected :
      (left i : ℕ) (c : C) (events : List (Event C))
      → w.done i ≡ false
      → (dialed i).conn ≡ some c
      → redial_loop w left (suc i) ≡ some events
      → redial_loop w (suc left) i ≡ some (consumed c ∷ events)
  unfolding redial_loop
  loop_reconnected left i c events h d rest = ground arith

  redial_loop_ends :
      (k left i : ℕ)
      → k < left
      → w.done (i + k) ≡ true
      → (events : List (Event C)) × (redial_loop w left i ≡ some events) × (length events ≤ k)
  redial_loop_ends k zero i h d = absurd (omega arith)
  redial_loop_ends zero (suc left) i h d =
      ([], loop_done left i (subst (λ j. w.done j ≡ true) {y = i} (omega arith) d), omega arith)
  redial_loop_ends (suc k) (suc left) i h d = elim (Bool-cases (w.done i)) [
    | inl now ↦ ([], loop_done left i now, omega arith)
    | inr going ↦ elim (Option-cases (dialed i).conn) [
      | inl failed ↦ ([], loop_given_up left i going failed, omega arith)
      | inr (c, got) ↦
          let (events, rest, few) =
            redial_loop_ends k left (suc i) (omega arith)
              (subst (λ j. w.done j ≡ true) (omega arith) d) in
          (consumed c ∷ events, loop_reconnected left i c events going got rest, omega arith)
    ]
  ]

  -- Once its context is done the client ends: if it is done at the top of round `k`, the goroutine
  -- has by then taken the first conn and at most `k` others to their ends, and has cleaned up.
  pub polling_ends :
      (k rounds : ℕ) (c : C)
      → k < rounds
      → w.done k ≡ true
      → (events : List (Event C)) × (polling w rounds c
          ≡ some (consumed c ∷ (events ++ cleaned_up ∷ [])))
        × (length events ≤ k)
  unfolding polling
  polling_ends k rounds c h d =
      let (events, ends, few) =
        redial_loop_ends k rounds 0 h (subst (λ j. w.done j ≡ true) {x = k} (omega arith) d) in
      (events, ground (arith, ends), few)

  all_fail :
      (i retries : ℕ)
      → ((j : ℕ) → (e : Error) × ((w.redial i).dial j ≡ err e))
      → (try_dial (w.redial i) retries).conn ≡ none
  all_fail i retries f = elim (Option-cases (try_dial (w.redial i) retries).conn) [
    | inl e ↦ e
    | inr (c, e) ↦
        let (k, below, r) = (try_dial_iff (w.redial i) retries c).0 e in
        let (err_k, failed) = f k in cc (failed, r.got)
  ]

  -- The client also ends while its context is open: where every attempt to dial again fails, it
  -- cleans up after its first conn, although `cleanup` is documented as safe only with a closed
  -- context.
  pub polling_gives_up :
      (rounds : ℕ) (c : C)
      → w.done 0 ≡ false
      → ((j : ℕ) → (e : Error) × ((w.redial 0).dial j ≡ err e))
      → polling w (suc rounds) c ≡ some (consumed c ∷ cleaned_up ∷ [])
  unfolding polling
  polling_gives_up rounds c going fails =
      ground (arith, loop_given_up rounds 0 going (all_fail 0 client_reconnection_retry fails))
