-- ===== src/Reconciler/Nested.antt =====
-- Maps of maps, with no entry for a key that has nothing left: `pkg/reconciler` keeps its pods and
-- its connections in such maps.
use control_protocol.Prelude.{
  ◌≡◌, ap, subst, ◌∙◌, inl, inr, ◌&&◌, Bool-cases, Option, none, some, if◌then◌else◌, arith,
}
use control_protocol.Prelude.Equality.{Comparable, ◌==◌}
use control_protocol.Prelude.Maps.{
  Map, empty, lookup, insert, erase, is_empty, lookup-empty, lookup-insert, lookup-erase,
  is_empty_iff,
}

abbrev pub Nested : Type 0 → Type 0 → Type 0 → Type 0
Nested K P W = Map K (Map P W)

abbrev pub inner_or_new : {P W : Type 0} → Option (Map P W) → Map P W
inner_or_new none = empty
inner_or_new (some inner) = inner

module _ {K P W : Type 0} ⦃k : Comparable K⦄ ⦃p : Comparable P⦄ where
  abbrev pub get_in : Nested K P W → K → P → Option W
  get_in n a b = elim (lookup a n) [ none ↦ none | some inner ↦ lookup b inner ]

  -- The inner map of `a`, or no entry where it is empty.
  unfoldable pub put_or_delete : Nested K P W → K → Map P W → Nested K P W
  put_or_delete n a inner = if is_empty inner then erase a n else insert a inner n

  -- `get_in` behind a change of one place.
  abbrev pub changed_in : Nested K P W → K → P → Option W → K → P → Option W
  changed_in n a b w a' b' = if a == a' && b == b' then w else get_in n a' b'

  pub get_in-put_or_delete :
      (n : Nested K P W) (a a' : K) (inner : Map P W) (b' : P)
      → get_in (put_or_delete n a inner) a' b'
        ≡ (if a == a' then lookup b' inner else get_in n a' b')
  unfolding put_or_delete
  get_in-put_or_delete n a a' inner b' = elim (Bool-cases (is_empty inner)) [
    | inl e ↦ ground (arith, (is_empty_iff inner).0 e b', lookup-erase a a' n)
    | inr e ↦ ground (arith, lookup-insert a a' inner n)
  ]

  get_in-insert :
      (n : Nested K P W) (a a' : K) (inner : Map P W) (b' : P)
      → get_in (insert a inner n) a' b' ≡ (if a == a' then lookup b' inner else get_in n a' b')
  get_in-insert n a a' inner b' = ground (arith, lookup-insert a a' inner n)

  pub lookup-inner_or_new :
      (n : Nested K P W) (a : K) (b : P) → lookup b (inner_or_new (lookup a n)) ≡ get_in n a b
  lookup-inner_or_new n a b = ground (arith, lookup-empty {V = W} b)

  changed_inside :
      (n : Nested K P W) (a a' : K) (b b' : P) (w : Option W)
      → (if a == a'
          then (if b == b' then w else lookup b' (inner_or_new (lookup a n)))
          else get_in n a' b')
        ≡ changed_in n a b w a' b'
  changed_inside n a a' b b' w = elim (Bool-cases (a == a')) [
    | inl e ↦
        ground
          (arith, e, lookup-inner_or_new n a b', ap (λ s. get_in n s b') ((k.equal_iff a a').0 e))
    | inr e ↦ ground (arith, e)
  ]

  pub get_in-insert_in :
      (n : Nested K P W) (a a' : K) (b b' : P) (w : W)
      → get_in (insert a (insert b w (inner_or_new (lookup a n))) n) a' b'
        ≡ changed_in n a b (some w) a' b'
  get_in-insert_in n a a' b b' w =
      get_in-insert n a a' (insert b w (inner_or_new (lookup a n))) b'
      ∙ rw (lookup-insert b b' w (inner_or_new (lookup a n))) (changed_inside n a a' b b' (some w))

  pub get_in-erase_in :
      (n : Nested K P W) (a a' : K) (b b' : P)
      → get_in (put_or_delete n a (erase b (inner_or_new (lookup a n)))) a' b'
        ≡ changed_in n a b none a' b'
  get_in-erase_in n a a' b b' =
      get_in-put_or_delete n a a' (erase b (inner_or_new (lookup a n))) b'
      ∙ rw (lookup-erase b b' (inner_or_new (lookup a n))) (changed_inside n a a' b b' none)

  pub get_in-absent :
      (n : Nested K P W) (a a' : K) (b b' : P)
      → lookup a n ≡ none
      → get_in n a' b' ≡ changed_in n a b none a' b'
  get_in-absent n a a' b b' e = elim (Bool-cases (a == a')) [
    | inl s ↦ ground (arith, e, ap (λ x. lookup x n) ((k.equal_iff a a').0 s))
    | inr s ↦ ground (arith, s)
  ]

  pub get_in-erase_found :
      (n : Nested K P W) (a a' : K) (b b' : P) (inner : Map P W)
      → lookup a n ≡ some inner
      → get_in (put_or_delete n a (erase b inner)) a' b' ≡ changed_in n a b none a' b'
  get_in-erase_found n a a' b b' inner e =
      subst
        (λ o.
          get_in (put_or_delete n a (erase b (inner_or_new o))) a' b' ≡ changed_in n a b none a' b')
        e (get_in-erase_in n a a' b b')
