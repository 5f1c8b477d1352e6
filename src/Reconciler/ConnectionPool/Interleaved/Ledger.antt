-- ===== src/Reconciler/ConnectionPool/Interleaved/Ledger.antt =====
-- Contexts and who has them: each has one owner, and no owner has one that was cancelled.
use control_protocol.Prelude.{
  ℕ, suc, ◌<◌, ◌≡◌, ◌≢◌, ◌⊎◌, sym, ap, ◌∙◌, inl, inr, true, false, Bool-cases, Option, none, some,
  List, [], ◌∷◌, ◌++◌, arith,
}
use control_protocol.Prelude.Equality.{nat_eq}
use control_protocol.Prelude.Maps.{contains, contains-append}

module _ {O : Type 0} where
  pub record Ledger (owned : O → Option ℕ) (contexts : ℕ) (cancelled : List ℕ) : Type 0 where
    pub made : (o : O) (i : ℕ) → owned o ≡ some i → i < contexts
    pub past : (i : ℕ) → contains i cancelled ≡ true → i < contexts
    pub alive : (o : O) (i : ℕ) → owned o ≡ some i → contains i cancelled ≡ false
    pub own : (o o' : O) (i : ℕ) → owned o ≡ some i → owned o' ≡ some i → o ≡ o'

  -- A context is made, and cancelled at once.
  pub Ledger-spend :
      (owned : O → Option ℕ) (n : ℕ) (c : List ℕ)
      → Ledger owned n c
      → Ledger owned (suc n) (c ++ n ∷ [])
  Ledger-spend owned n c l = record {
    made = λ o i p. omega (arith, l.made o i p);
    past = λ i p. ground (arith, p, contains-append i c (n ∷ []), l.past i);
    alive = λ o i p. ground (arith, contains-append i c (n ∷ []), l.alive o i p, l.made o i p);
    own = l.own;
  }

  -- A context is made, for an owner.
  pub Ledger-gain :
      (owned owned' : O → Option ℕ) (x : O) (n : ℕ) (c : List ℕ)
      → ((o : O) (i : ℕ) → owned' o ≡ some i → (owned o ≡ some i) ⊎ ((o ≡ x) × (i ≡ n)))
      → Ledger owned n c
      → Ledger owned' (suc n) c
  Ledger-gain owned owned' x n c from l = record {
    made = λ o i p. elim (from o i p) [
      | inl q ↦ omega (arith, l.made o i q)
      | inr (q, r) ↦ omega (arith, r)
    ];
    past = λ i p. omega (arith, l.past i p);
    alive = λ o i p. elim (from o i p) [
      | inl q ↦ l.alive o i q
      | inr (q, r) ↦ ground (arith, r, l.past i)
    ];
    own = λ o o' i p p'. elim (from o i p) [
      | inl q ↦ elim (from o' i p') [
        | inl q' ↦ l.own o o' i q q'
        | inr (q', r') ↦ absurd (omega (arith, r', l.made o i q))
      ]
      | inr (q, r) ↦ elim (from o' i p') [
        | inl q' ↦ absurd (omega (arith, r, l.made o' i q'))
        | inr (q', r') ↦ q ∙ sym q'
      ]
    ];
  }

  -- A context goes from one owner to another, who forgets what it had.
  pub Ledger-move :
      (owned owned' : O → Option ℕ) (x y : O) (n : ℕ) (c : List ℕ)
      → ((o : O) (i : ℕ)
          → owned' o ≡ some i
          → ((owned o ≡ some i) × (o ≢ y)) ⊎ ((o ≡ x) × (owned y ≡ some i)))
      → Ledger owned n c
      → Ledger owned' n c
  Ledger-move owned owned' x y n c from l = record {
    made = λ o i p. elim (from o i p) [ inl (q, r) ↦ l.made o i q | inr (q, r) ↦ l.made y i r ];
    past = l.past;
    alive = λ o i p. elim (from o i p) [ inl (q, r) ↦ l.alive o i q | inr (q, r) ↦ l.alive y i r ];
    own = λ o o' i p p'. elim (from o i p) [
      | inl (q, r) ↦ elim (from o' i p') [
        | inl (q', r') ↦ l.own o o' i q q'
        | inr (q', r') ↦ absurd (r (l.own o y i q r'))
      ]
      | inr (q, r) ↦ elim (from o' i p') [
        | inl (q', r') ↦ absurd (r' (l.own o' y i q' r))
        | inr (q', r') ↦ q ∙ sym q'
      ]
    ];
  }

  -- Contexts are cancelled, and their owners lose them.
  pub Ledger-lose :
      (owned owned' : O → Option ℕ) (n n' : ℕ) (c c' : List ℕ)
      → n ≡ n'
      → ((o : O) (i : ℕ) → owned' o ≡ some i → owned o ≡ some i)
      → ((i : ℕ)
          → contains i c' ≡ true
          → (contains i c ≡ true) ⊎ ((o : O) × (owned o ≡ some i) × (owned' o ≡ none)))
      → Ledger owned n c
      → Ledger owned' n' c'
  Ledger-lose owned owned' n n' c c' same fewer from l = record {
    made = λ o i p. omega (arith, same, l.made o i (fewer o i p));
    past = λ i p. elim (from i p) [
      | inl q ↦ omega (arith, same, l.past i q)
      | inr (o, q, r) ↦ omega (arith, same, l.made o i q)
    ];
    alive = λ o i p. elim (Bool-cases (contains i c')) [
      | inr f ↦ f
      | inl t ↦ elim (from i t) [
        | inl q ↦ absurd (ground (arith, q, l.alive o i (fewer o i p)))
        | inr (o', q, r) ↦ absurd (ground (arith, p, r, ap owned' (l.own o o' i (fewer o i p) q)))
      ]
    ];
    own = λ o o' i p p'. l.own o o' i (fewer o i p) (fewer o' i p');
  }
