-- ===== src/Network/Server/Accepting.antt =====
-- What becomes of the conns of a server, and which port it reports.
use control_protocol.Prelude.{
  ℕ, zero, suc, ◌+◌, ◌<◌, ◌≡◌, ◌⊎◌, refl, ap, subst, true, false, some, List, [], ◌∷◌, ◌++◌, arith,
}
use control_protocol.Errors.{Text, Error, ok, err}
use control_protocol.Network.Client.{contains_colon}
use control_protocol.Network.Server.{
  after_last_colon, Listener, Outcome, outcome, listen_loop, Event, treated, cleaned_up,
  channel_closed, treat_all, start_accept_polling,
}

colon_inside : (host port : Text) → contains_colon (host ++ b':' ∷ port) ≡ true
colon_inside [] port = refl
colon_inside (c ∷ host) port = ground (arith, colon_inside host port)

-- The port is what stands behind the last colon of the listener's address, also where the host has
-- colons of its own.
pub after_last_colon-port :
    (host port : Text) → contains_colon port ≡ false → after_last_colon (host ++ b':' ∷ port) ≡ port
unfolding after_last_colon
after_last_colon-port [] port h = ground (arith, h)
after_last_colon-port (c ∷ host) port h =
    ground (arith, h, colon_inside host port, after_last_colon-port host port h)

module _ {ℓ} {C : Type ℓ} (l : Listener C) where
  -- The outcomes of the conns of `n` rounds from round `i` on.
  unfoldable pub outcomes_of : (ℕ → C) → ℕ → ℕ → List (Outcome C)
  outcomes_of conn zero i = []
  outcomes_of conn (suc n) i = outcome l i (conn i) ∷ outcomes_of conn n (suc i)

  -- The loop has accepted the conns of the rounds before `k`, and stops in round `k`.
  pub record Stops (conn : ℕ → C) (k : ℕ) : Type ℓ where
    pub going : (j : ℕ) → j < k → l.done j ≡ false
    pub accepted : (j : ℕ) → j < k → l.accept j ≡ ok (conn j)
    pub last : (l.done k ≡ true) ⊎ ((l.done k ≡ false) × (e : Error) × (l.accept k ≡ err e))

  loop-Stops :
      (conn : ℕ → C) (n left i : ℕ)
      → Stops conn (i + n)
      → n < left
      → listen_loop l left i ≡ some (outcomes_of conn n i)
  unfolding listen_loop outcomes_of
  loop-Stops conn n zero i s h = absurd (omega arith)
  loop-Stops conn zero (suc left) i s h =
      let at_end =
        subst (λ k. (l.done k ≡ true) ⊎ ((l.done k ≡ false) × (e : Error) × (l.accept k ≡ err e)))
          {y = i} (omega arith) s.last in
      ground (arith, at_end)
  loop-Stops conn (suc n) (suc left) i s h =
      let later = subst (Stops conn) {y = suc i + n} (omega arith) s in
      ground (
        arith,
        s.going i (omega arith),
        s.accepted i (omega arith),
        loop-Stops conn n left (suc i) later (omega arith),
      )

  -- The events of `n` rounds from round `i` on, and those of the end.
  unfoldable pub events_of : (ℕ → C) → ℕ → ℕ → List (Event C)
  events_of conn zero i = cleaned_up ∷ channel_closed ∷ []
  events_of conn (suc n) i = treated (outcome l i (conn i)) ∷ events_of conn n (suc i)

  treat_all-outcomes_of :
      (conn : ℕ → C) (n i : ℕ) → treat_all l (outcomes_of conn n i) ≡ events_of conn n i
  unfolding treat_all outcomes_of events_of
  treat_all-outcomes_of conn zero i = refl
  treat_all-outcomes_of conn (suc n) i =
      ap (◌∷◌ (treated (outcome l i (conn i)))) (treat_all-outcomes_of conn n (suc i))

  -- The server treats each conn that it accepts before its accept loop stops, in order: a TLS
  -- configuration that does not load costs one conn, and not the loop. Behind the loop it cleans up,
  -- and closes the channel of `ClosedCh` last.
  pub start_accept_polling_ends :
      (conn : ℕ → C) (k rounds : ℕ)
      → Stops conn k
      → k < rounds
      → start_accept_polling l rounds ≡ some (events_of conn k 0)
  unfolding start_accept_polling
  start_accept_polling_ends conn k rounds s h =
      let stops = loop-Stops conn k rounds 0 (subst (Stops conn) {x = k} (omega arith) s) h in
      rw (stops, start_accept_polling) (ap (λ events. some events) (treat_all-outcomes_of conn k 0))
