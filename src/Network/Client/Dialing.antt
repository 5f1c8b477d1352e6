-- ===== src/Network/Client/Dialing.antt =====
-- `tryDial` and the default port.
use control_protocol.Prelude.{
  ℕ, zero, suc, ◌+◌, ◌≤◌, ◌<◌, ◌≡◌, ◌↔◌, ◌⊎◌, refl, ap, subst, ◌∙◌, true, false, Bool-cases, Option,
  none, some, inl, inr, [], ◌∷◌, ◌++◌, arith,
}
use native.Mathlib.Decide.{dec_lt}
use control_protocol.Errors.{Result-cases, Text, Error, ok, err}
use control_protocol.Network.Client.{
  contains_colon, default_port, with_default_port, Attempts, Dialed, dial_loop, try_dial,
}

contains_colon-append : (a b : Text) → contains_colon b ≡ true → contains_colon (a ++ b) ≡ true
contains_colon-append [] b h = h
contains_colon-append (c ∷ a) b h = ground (arith, contains_colon-append a b h)

-- Every target that is dialed names a port, or at least has a colon; and to complete a target again
-- changes nothing.
pub with_default_port-colon :
    (target : Text)
    → (contains_colon (with_default_port target) ≡ true)
      × (with_default_port (with_default_port target) ≡ with_default_port target)
unfolding with_default_port
with_default_port-colon target = (has, rw has)
  where
    has : contains_colon (with_default_port target) ≡ true
    has = elim (Bool-cases (contains_colon target)) [
      | inl h ↦ rw (h, with_default_port) h
      | inr h ↦ rw (h, with_default_port) (contains_colon-append target default_port (refl))
    ]

module _ {ℓ} {C : Type ℓ} (a : Attempts C) where
  -- Attempt `j` failed, and the client went on to the next.
  abbrev pub Retried : ℕ → Type ℓ
  Retried j = (e : Error) × (a.dial j ≡ err e) × (a.cancelled j ≡ false)

  abbrev pub Connected : C → Dialed C
  Connected c = record { conn = some c; error = none }

  -- Attempt `k` gets the conn `c`, and those from `i` on to it were failures.
  pub record Reaches (i k : ℕ) (c : C) : Type ℓ where
    pub from_start : i ≤ k
    pub got : a.dial k ≡ ok c
    pub failures : (j : ℕ) → i ≤ j → j < k → Retried j

  loop-Reaches :
      (left i : ℕ) (last : Option Error) (k : ℕ) (c : C)
      → k < i + left
      → Reaches i k c
      → dial_loop a left i last ≡ Connected c
  unfolding dial_loop
  loop-Reaches zero i last k c h r = absurd (omega (arith, r.from_start))
  loop-Reaches (suc left) i last k c h r = elim (dec_lt i k) [
    | yes later ↦
        let (e, failed, going) = r.failures i (omega arith) later in
        let next : Reaches (suc i) k c = record {
          from_start = later;
          got = r.got;
          failures = λ j from. r.failures j (omega arith);
        } in
        ground (arith, failed, going, loop-Reaches left (suc i) (some e) k c (omega arith) next)
    | no now ↦
        let here : a.dial i ≡ ok c =
          subst (λ j. a.dial j ≡ ok c) {x = k} (omega (arith, r.from_start)) r.got in
        ground (arith, here)
  ]

  abbrev Reached : ℕ → ℕ → C → Type ℓ
  Reached i bound c = (k : ℕ) × (k < bound) × Reaches i k c

  Reached-later : (i bound : ℕ) (c : C) → Retried i → Reached (suc i) bound c → Reached i bound c
  Reached-later i bound c now (k, below, r) = (
    k,
    below,
    record {
      from_start = omega (arith, r.from_start);
      got = r.got;
      failures = λ j from before. elim (dec_lt i j) [
        | yes later ↦ r.failures j later before
        | no same ↦ subst Retried {x = i} (omega arith) now
      ];
    },
  )

  loop-Reached :
      (left i : ℕ) (last : Option Error) (c : C)
      → (dial_loop a left i last).conn ≡ some c
      → Reached i (i + left) c
  unfolding dial_loop
  loop-Reached zero i last c h = cc
  loop-Reached (suc left) i last c h = elim (Result-cases (a.dial i)) [
    | inl (d, got) ↦ (
      i,
      omega arith,
      record {
        from_start = omega arith;
        got = got ∙ ground (arith, got);
        failures = λ j from before. absurd (omega arith);
      },
    )
    | inr (e, failed) ↦ elim (Bool-cases (a.cancelled i)) [
      | inl over ↦ absurd (ground (arith, failed, over))
      | inr going ↦
          let (k, below, r) =
            loop-Reached left (suc i) (some e) c (ground (arith, failed, going)) in
          Reached-later i (i + suc left) c (e, failed, going) (k, omega arith, r)
    ]
  ]

  -- `tryDial` returns a conn just when one of its attempts, fewer than `retries`, got it, each
  -- attempt before that one having failed with the context not done behind it.
  pub try_dial_iff :
      (retries : ℕ) (c : C)
      → ((try_dial a retries).conn ≡ some c) ↔ ((k : ℕ) × (k < retries) × Reaches 0 k c)
  unfolding try_dial
  try_dial_iff retries c = (
    λ h. let (k, below, r) = loop-Reached retries 0 none c h in (k, omega arith, r),
    λ h. ap (λ d. d.conn) (loop-Reaches retries 0 none h.0 c (omega (arith, h.1)) h.2),
  )

  abbrev One : Dialed C → Type ℓ
  One d = ((d.conn ≡ none) × (e : Error) × (d.error ≡ some e)) ⊎ ((c : C) × (d ≡ Connected c))

  loop-One : (left i : ℕ) (e : Error) → One (dial_loop a left i (some e))
  unfolding dial_loop
  loop-One zero i e = inl (refl, e, refl)
  loop-One (suc left) i e = elim (Result-cases (a.dial i)) [
    | inl (c, got) ↦ inr (c, ground (arith, got))
    | inr (f, failed) ↦ elim (Bool-cases (a.cancelled i)) [
      | inl over ↦ inl (ground (arith, failed, over), f, ground (arith, failed, over))
      | inr going ↦ ground (arith, failed, going, loop-One left (suc i) f)
    ]
  ]

  -- With at least one attempt allowed, `tryDial` returns a conn or an error, and not both.
  pub try_dial-One : (retries : ℕ) → 0 < retries → One (try_dial a retries)
  unfolding try_dial dial_loop
  try_dial-One zero h = absurd (omega arith)
  try_dial-One (suc left) h = elim (Result-cases (a.dial 0)) [
    | inl (c, got) ↦ inr (c, ground (arith, got))
    | inr (f, failed) ↦ elim (Bool-cases (a.cancelled 0)) [
      | inl over ↦ inl (ground (arith, failed, over), f, ground (arith, failed, over))
      | inr going ↦ ground (arith, failed, going, loop-One left 1 f)
    ]
  ]
