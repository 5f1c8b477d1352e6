-- ===== src/Prelude/Maps/Entries.antt =====
-- Maps in which a lookup finds every entry, as it does in all that insertions and deletions make.
use mathlib.Core.Path.{◌≡◌, refl, ap, ◌∙◌}
use mathlib.Core.Bool.{Bool, true, false}
use mathlib.Core.Option.{some}
use mathlib.Core.List.{List, [], ◌∷◌, map, Memᴰ}
use native.Mathlib.Omega.{arith}
use control_protocol.Prelude.Tests.{if◌then◌else◌}
use control_protocol.Prelude.Equality.{Comparable, ◌==◌}
use control_protocol.Prelude.Maps.{
  Map, empty, without, lookup, insert, erase, values, lookup-insert, lookup-erase,
}

module _ {K V : Type 0} ⦃eq : Comparable K⦄ where
  pub IsFound : Map K V → Type 0
  IsFound m = (k : K) (v : V) → Memᴰ (k, v) m.entries → lookup k m ≡ some v

  Memᴰ-without :
      (k j : K) (v : V) (l : List (K × V))
      → Memᴰ (j, v) (without k l)
      → Memᴰ (j, v) l × ((k == j) ≡ false)
  unfolding without
  Memᴰ-without k j v [] mem = elim mem [ ]
  Memᴰ-without k j v ((i, w) ∷ l) mem = kept (Memᴰ-without k j v l) (i == k) refl mem
    where
      kept :
          (Memᴰ (j, v) (without k l) → Memᴰ (j, v) l × ((k == j) ≡ false))
          → (b : Bool) → (i == k) ≡ b
          → Memᴰ (j, v) (if b then without k l else (i, w) ∷ without k l)
          → Memᴰ (j, v) ((i, w) ∷ l) × ((k == j) ≡ false)
      kept inside true e mem = let old = inside mem in (Memᴰ.tail old.0, old.1)
      kept inside false e (Memᴰ.head p) =
          (Memᴰ.head p, ground (arith, e, ap (λ x. x.0) p, eq.equal_iff i k, eq.equal_iff k j))
      kept inside false e (Memᴰ.tail mem) = let old = inside mem in (Memᴰ.tail old.0, old.1)

  pub insert-IsFound : (k : K) (v : V) (m : Map K V) → IsFound m → IsFound (insert k v m)
  unfolding IsFound insert
  insert-IsFound k v m f j w (Memᴰ.head e) =
      lookup-insert k j v m ∙ ground (arith, ap (λ x. x.0) e, ap (λ x. x.1) e, eq.equal_iff k j)
  insert-IsFound k v m f j w (Memᴰ.tail mem) =
      let old = Memᴰ-without k j w m.entries mem in
      lookup-insert k j v m ∙ ground (arith, old.1, f j w old.0)

  pub erase-IsFound : (k : K) (m : Map K V) → IsFound m → IsFound (erase k m)
  unfolding IsFound erase
  erase-IsFound k m f j w mem =
      let old = Memᴰ-without k j w m.entries mem in
      lookup-erase k j m ∙ ground (arith, old.1, f j w old.0)

  pub values-IsFound :
      (m : Map K V) (v : V) → IsFound m → Memᴰ v (values m) → (k : K) × (lookup k m ≡ some v)
  unfolding IsFound values
  values-IsFound m v f mem = let e = in_entries m.entries mem in (e.0, f e.0 v e.1)
    where
      in_entries : (l : List (K × V)) → Memᴰ v (map (λ e. e.1) l) → (k : K) × Memᴰ (k, v) l
      in_entries [] mem = elim mem [ ]
      in_entries ((k, w) ∷ l) (Memᴰ.head e) = (k, Memᴰ.head (ap (λ x. (k, x)) e))
      in_entries ((k, w) ∷ l) (Memᴰ.tail mem) = let e = in_entries l mem in (e.0, Memᴰ.tail e.1)

pub empty-IsFound : (K V : Type 0) ⦃eq : Comparable K⦄ → IsFound (empty {K = K} {V = V})
unfolding IsFound empty
empty-IsFound K V k v mem = elim mem [ ]
