-- ===== src/Reconciler/ConnectionPool/Cancelling.antt =====
-- The loops of the pool over `cancelFn`: they call each, and forget none.
use mathlib.Core.List.{Memᴰ}
use control_protocol.Prelude.{
  ℕ, ◌≡◌, ◌⊎◌, inl, inr, Bool-cases, refl, ap, subst, true, List, [], ◌∷◌, ◌++◌, arith,
}
use control_protocol.Prelude.Equality.{nat_eq, ==_refl}
use control_protocol.Prelude.Maps.{contains-append, Map, contains, values}
use control_protocol.Reconciler.ConnectionPool.{
  ClientServiceHolder, cancel_holder, cancel_all, cancel_each,
}

pub cancel_all-keeps :
    {V : Type 0} (i : ℕ) (holders : List (ClientServiceHolder V)) (cancelled : List ℕ)
    → contains i cancelled ≡ true
    → contains i (cancel_all holders cancelled) ≡ true
unfolding cancel_all cancel_holder
cancel_all-keeps i [] cancelled h = h
cancel_all-keeps i (holder ∷ holders) cancelled h =
    cancel_all-keeps i holders (cancelled ++ holder.cancel_fn ∷ [])
      (ground (arith, h, contains-append i cancelled (holder.cancel_fn ∷ [])))

pub cancel_all-cancels :
    {V : Type 0} (holder : ClientServiceHolder V) (holders : List (ClientServiceHolder V))
    (cancelled : List ℕ)
    → Memᴰ holder holders
    → contains holder.cancel_fn (cancel_all holders cancelled) ≡ true
unfolding cancel_all cancel_holder
cancel_all-cancels holder [] cancelled mem = elim mem [ ]
cancel_all-cancels holder (x ∷ holders) cancelled (Memᴰ.head e) =
    cancel_all-keeps holder.cancel_fn holders (cancelled ++ x.cancel_fn ∷ []) (
      ground (
        arith,
        ap (λ y. y.cancel_fn) e,
        ==_refl x.cancel_fn,
        contains-append holder.cancel_fn cancelled (x.cancel_fn ∷ []),
      ))
cancel_all-cancels holder (x ∷ holders) cancelled (Memᴰ.tail mem) =
    cancel_all-cancels holder holders (cancelled ++ x.cancel_fn ∷ []) mem

module _ {H V : Type 0} where
  pub cancel_each-keeps :
      (i : ℕ) (maps : List (Map H (ClientServiceHolder V))) (cancelled : List ℕ)
      → contains i cancelled ≡ true
      → contains i (cancel_each maps cancelled) ≡ true
  unfolding cancel_each
  cancel_each-keeps i [] cancelled h = h
  cancel_each-keeps i (m ∷ maps) cancelled h =
      cancel_each-keeps i maps (cancel_all (values m) cancelled)
        (cancel_all-keeps i (values m) cancelled h)

  pub cancel_each-cancels :
      (holder : ClientServiceHolder V) (m : Map H (ClientServiceHolder V))
      (maps : List (Map H (ClientServiceHolder V))) (cancelled : List ℕ)
      → Memᴰ m maps
      → Memᴰ holder (values m)
      → contains holder.cancel_fn (cancel_each maps cancelled) ≡ true
  unfolding cancel_each
  cancel_each-cancels holder m [] cancelled there mem = elim there [ ]
  cancel_each-cancels holder m (x ∷ maps) cancelled (Memᴰ.head e) mem =
      cancel_each-keeps holder.cancel_fn maps (cancel_all (values x) cancelled)
        (cancel_all-cancels holder (values x) cancelled (subst (λ y. Memᴰ holder (values y)) e mem))
  cancel_each-cancels holder m (x ∷ maps) cancelled (Memᴰ.tail there) mem =
      cancel_each-cancels holder m maps (cancel_all (values x) cancelled) there mem

-- They call no other.
pub cancel_all-from :
    {V : Type 0} (i : ℕ) (holders : List (ClientServiceHolder V)) (c : List ℕ)
    → contains i (cancel_all holders c) ≡ true
    → (contains i c ≡ true) ⊎ ((x : ClientServiceHolder V) × Memᴰ x holders × (x.cancel_fn ≡ i))
unfolding cancel_all cancel_holder
cancel_all-from i [] c p = inl p
cancel_all-from i (x ∷ holders) c p = elim (cancel_all-from i holders (c ++ x.cancel_fn ∷ []) p) [
  | inr (y, mem, q) ↦ inr (y, Memᴰ.tail mem, q)
  | inl q ↦ elim (Bool-cases (contains i c)) [
    | inl old ↦ inl old
    | inr n ↦ inr (x, Memᴰ.head refl, ground (arith, q, n, contains-append i c (x.cancel_fn ∷ [])))
  ]
]

pub cancel_each-from :
    {H V : Type 0} (i : ℕ) (maps : List (Map H (ClientServiceHolder V))) (c : List ℕ)
    → contains i (cancel_each maps c) ≡ true
    → (contains i c ≡ true)
      ⊎ ((m : Map H (ClientServiceHolder V)) × Memᴰ m maps
          × (x : ClientServiceHolder V) × Memᴰ x (values m)
          × (x.cancel_fn ≡ i))
unfolding cancel_each
cancel_each-from i [] c p = inl p
cancel_each-from i (m ∷ maps) c p = elim (cancel_each-from i maps (cancel_all (values m) c) p) [
  | inr (m', mem, x, at, q) ↦ inr (m', Memᴰ.tail mem, x, at, q)
  | inl q ↦ elim (cancel_all-from i (values m) c q) [
    | inl old ↦ inl old
    | inr (x, at, q) ↦ inr (m, Memᴰ.head refl, x, at, q)
  ]
]
