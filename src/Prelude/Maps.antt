-- ===== src/Prelude/Maps.antt =====
-- Go's `map[K]V`: an association list behind its laws. A missing key reads as `none`.
pub mod Entries
use mathlib.Core.Path.{◌≡◌, refl, subst}
use mathlib.Core.Logic.{◌↔◌}
use mathlib.Core.Bool.{Bool, true, false, ◌||◌}
use mathlib.Core.Logic.{inl, inr}
use mathlib.Core.Option.{Option, none, some}
use mathlib.Core.List.{List, [], ◌∷◌, ◌++◌, map, Memᴰ}
use native.Mathlib.Omega.{arith}
use control_protocol.Prelude.Tests.{if◌then◌else◌, Bool-cases}
use control_protocol.Prelude.Equality.{Comparable, ◌==◌, ==_refl}

pub record Map {ℓ} (K V : Type ℓ) : Type ℓ where
  entries : List (K × V)

-- `make(map[K]V)`
unfoldable pub empty {ℓ} : {K V : Type ℓ} → Map K V
empty = record { entries = [] }

module _ {ℓ} {K V : Type ℓ} where
  -- `len(m) == 0`
  empty_entries : List (K × V) → Bool
  empty_entries [] = true
  empty_entries (e ∷ l) = false

  unfoldable pub is_empty : Map K V → Bool
  unfolding empty_entries
  is_empty m = empty_entries m.entries

  -- The keys in the order of a `range` loop.
  unfoldable pub keys : Map K V → List K
  keys m = map (λ e. e.0) m.entries

  -- The values in the order of a `range` loop.
  pub values : Map K V → List V
  values m = map (λ e. e.1) m.entries

module _ {ℓ} {K V : Type ℓ} ⦃eq : Comparable K⦄ where
  find : K → List (K × V) → Option V
  find k [] = none
  find k ((j, v) ∷ l) = if j == k then some v else find k l

  without : K → List (K × V) → List (K × V)
  without k [] = []
  without k ((j, v) ∷ l) = let rest = without k l in if j == k then rest else (j, v) ∷ rest

  -- `v, ok := m[k]`
  unfoldable pub lookup : K → Map K V → Option V
  unfolding find
  lookup k m = find k m.entries

  -- `delete(m, k)`
  unfoldable pub erase : K → Map K V → Map K V
  unfolding without
  erase k m = record { entries = without k m.entries }

  -- `m[k] = v`
  unfoldable pub insert : K → V → Map K V → Map K V
  unfolding without
  insert k v m = record { entries = (k, v) ∷ without k m.entries }

  find-without :
      (k j : K) (l : List (K × V)) → find j (without k l) ≡ (if k == j then none else find j l)
  unfolding find without
  find-without k j [] = ground arith
  find-without k j ((i, v) ∷ l) =
      ground (arith, find-without k j l, eq.equal_iff i k, eq.equal_iff i j, eq.equal_iff k j)

  pub lookup-empty : (k : K) → lookup k (empty {V = V}) ≡ none
  unfolding lookup empty find
  lookup-empty k = refl

  pub lookup-erase :
      (k j : K) (m : Map K V) → lookup j (erase k m) ≡ (if k == j then none else lookup j m)
  unfolding lookup erase
  lookup-erase k j m = find-without k j m.entries

  pub lookup-insert :
      (k j : K) (v : V) (m : Map K V)
      → lookup j (insert k v m) ≡ (if k == j then some v else lookup j m)
  unfolding lookup insert find
  lookup-insert k j v m = simp find-without (ground arith)

  pub is_empty_iff : (m : Map K V) → (is_empty m ≡ true) ↔ ((k : K) → lookup k m ≡ none)
  unfolding is_empty lookup find
  is_empty_iff m = (none_of_empty m.entries, empty_of_none m.entries)
    where
      none_of_empty : (l : List (K × V)) → empty_entries l ≡ true → (k : K) → find k l ≡ none
      none_of_empty [] h k = refl
      none_of_empty (e ∷ l) h k = cc

      empty_of_none : (l : List (K × V)) → ((k : K) → find k l ≡ none) → empty_entries l ≡ true
      empty_of_none [] h = refl
      empty_of_none ((j, v) ∷ l) h = ground (arith, h j, ==_refl j)

abbrev pub map_option {ℓ} : {V W : Type ℓ} → (V → W) → Option V → Option W
map_option f none = none
map_option f (some x) = some (f x)

-- A map with each value replaced.
module _ {ℓ} {K V W : Type ℓ} where
  map_entries : (V → W) → List (K × V) → List (K × W)
  map_entries f [] = []
  map_entries f (e ∷ l) = (e.0, f e.1) ∷ map_entries f l

  unfoldable pub map_values : (V → W) → Map K V → Map K W
  unfolding map_entries
  map_values f m = record { entries = map_entries f m.entries }

module _ {ℓ} {K V W : Type ℓ} ⦃eq : Comparable K⦄ where
  find-map_entries :
      (f : V → W) (k : K) (l : List (K × V)) → find k (map_entries f l) ≡ map_option f (find k l)
  unfolding find map_entries
  find-map_entries f k [] = refl
  find-map_entries f k ((j, v) ∷ l) = ground (arith, find-map_entries f k l)

  pub lookup-map_values :
      (f : V → W) (k : K) (m : Map K V) → lookup k (map_values f m) ≡ map_option f (lookup k m)
  unfolding lookup map_values
  lookup-map_values f k m = find-map_entries f k m.entries

-- The key is in the list.
abbrev pub contains {ℓ} : {K : Type ℓ} ⦃eq : Comparable K⦄ → K → List K → Bool
contains k [] = false
contains k (j ∷ l) = (j == k) || contains k l

pub contains-append {ℓ} :
    {K : Type ℓ} ⦃eq : Comparable K⦄ (k : K) (a b : List K)
    → contains k (a ++ b) ≡ (contains k a || contains k b)
contains-append k [] b = refl
contains-append k (j ∷ a) b = ground (arith, contains-append k a b)

abbrev pub is_some {ℓ} : {A : Type ℓ} → Option A → Bool
is_some none = false
is_some (some x) = true

module _ {ℓ} {K V : Type ℓ} ⦃eq : Comparable K⦄ where
  pub contains-keys : (k : K) (m : Map K V) → contains k (keys m) ≡ is_some (lookup k m)
  unfolding keys lookup find
  contains-keys k m = in_entries m.entries
    where
      in_entries : (l : List (K × V)) → contains k (map (λ e. e.0) l) ≡ is_some (find k l)
      in_entries [] = refl
      in_entries ((j, v) ∷ l) = ground (arith, in_entries l)

module _ {ℓ} {K V : Type ℓ} ⦃eq : Comparable K⦄ where
  pub Memᴰ-values : (k : K) (v : V) (m : Map K V) → lookup k m ≡ some v → Memᴰ v (values m)
  unfolding values lookup find
  Memᴰ-values k v m = in_entries m.entries
    where
      in_entries : (l : List (K × V)) → find k l ≡ some v → Memᴰ v (map (λ e. e.1) l)
      in_entries [] h = absurd (ground (arith, h))
      in_entries ((j, w) ∷ l) h = elim (Bool-cases (j == k)) [
        | inl same ↦ Memᴰ.head (ground (arith, h, same))
        | inr other ↦ Memᴰ.tail (in_entries l (ground (arith, h, other)))
      ]

-- What holds of an entry, and of all entries of a map, holds of all behind its insertion.
pub insert_each {ℓ} :
    {K V : Type ℓ} ⦃eq : Comparable K⦄ (Q : K → V → Type ℓ) (k : K) (v : V) (m : Map K V)
    → Q k v
    → ((j : K) (w : V) → lookup j m ≡ some w → Q j w)
    → (j : K) (w : V) → lookup j (insert k v m) ≡ some w
    → Q j w
insert_each ⦃eq = eq⦄ Q k v m new old j w h = elim (Bool-cases (k == j)) [
  | inl same ↦
      subst (λ x. Q j x) ((ground (arith, h, lookup-insert k j v m, same)))
        (subst (λ x. Q x v) ((eq.equal_iff k j).0 same) new)
  | inr other ↦ old j w (ground (arith, h, lookup-insert k j v m, other))
]
