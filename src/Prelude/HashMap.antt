-- ===== src/Prelude/HashMap.antt =====
-- `HashMap` as an association list with at most one entry for a key that is inserted.
use mathlib.Core.Path.{◌≡◌, refl, subst}
use mathlib.Core.Logic.{inl, inr}
use mathlib.Core.Bool.{false}
use mathlib.Core.Option.{Option, none, some}
use mathlib.Core.List.{List, [], ◌∷◌}
use native.Mathlib.Omega.{arith}
use link_r.Prelude.Tests.{PartialEq, ◌==◌, if◌then◌else◌, Bool-cases}
use link_r.Prelude.Lists.{All}

abbrev pub HashMap {ℓ κ} : Type ℓ → Type κ → Type (ℓ ⊔ κ)
HashMap K V = List (K × V)

module _ {ℓ κ} {K : Type ℓ} {V : Type κ} ⦃e : PartialEq K⦄ where
  unfoldable pub get : HashMap K V → K → Option V
  get [] k = none
  get ((j, v) ∷ m) k = if j == k then some v else get m k

  unfoldable pub insert : HashMap K V → K → V → HashMap K V
  insert [] k v = (k, v) ∷ []
  insert ((j, w) ∷ m) k v = if j == k then (k, v) ∷ m else (j, w) ∷ insert m k v

  unfoldable pub remove : HashMap K V → K → HashMap K V
  remove [] k = []
  remove ((j, w) ∷ m) k = let rest = remove m k in if j == k then rest else (j, w) ∷ rest

  pub get-insert :
      (m : HashMap K V) (k j : K) (v : V)
      → get (insert m k v) j ≡ (if k == j then some v else get m j)
  unfolding get insert
  get-insert [] k j v = refl
  get-insert ((i, w) ∷ m) k j v =
      ground (arith, e.eq_test_iff k j, e.eq_test_iff i k, e.eq_test_iff i j, get-insert m k j v)

  pub get-remove :
      (m : HashMap K V) (k j : K) → get (remove m k) j ≡ (if k == j then none else get m j)
  unfolding get remove
  get-remove [] k j = ground arith
  get-remove ((i, w) ∷ m) k j =
      ground (arith, e.eq_test_iff k j, e.eq_test_iff i k, e.eq_test_iff i j, get-remove m k j)

module _ {ℓ κ} {K : Type ℓ} {V : Type κ} ⦃e : PartialEq K⦄ where
  -- A key has at most one entry.
  abbrev pub IsMap : HashMap K V → Type κ
  IsMap [] = Unit
  IsMap ((k, v) ∷ m) = (get m k ≡ none) × IsMap m

  pub insert-IsMap : (m : HashMap K V) (k : K) (v : V) → IsMap m → IsMap (insert m k v)
  unfolding insert get
  insert-IsMap [] k v i = (refl, tt)
  insert-IsMap ((j, w) ∷ m) k v (fresh, i) = elim (Bool-cases (j == k)) [
    | inl same ↦
        let j_k : j ≡ k = (e.eq_test_iff j k).0 same in
        rw (same, insert) (subst (λ x. get m x ≡ none) j_k fresh, i)
    | inr other ↦
        let apart : (k == j) ≡ false = ground (arith, e.eq_test_iff j k, e.eq_test_iff k j) in
        rw (other, insert) (ground (arith, get-insert m k j v), insert-IsMap m k v i)
  ]

  entries-extend :
      (k : K) (v : V) (m l : HashMap K V)
      → get m k ≡ none
      → All (λ x. get m x.0 ≡ some x.1) l
      → All (λ x. get ((k, v) ∷ m) x.0 ≡ some x.1) l
  unfolding get
  entries-extend k v m [] fresh ps = tt
  entries-extend k v m (x ∷ l) fresh (p, ps) = (
    elim (Bool-cases (k == x.0)) [
      | inl same ↦
          let k_x : k ≡ x.0 = (e.eq_test_iff k x.0).0 same in
          absurd (ground (arith, subst (λ y. get m y ≡ none) k_x fresh))
      | inr other ↦ ground arith
    ],
    entries-extend k v m l fresh ps,
  )

  -- The entries are what a lookup finds.
  pub IsMap-get : (m : HashMap K V) → IsMap m → All (λ x. get m x.0 ≡ some x.1) m
  unfolding get
  IsMap-get [] i = tt
  IsMap-get ((k, v) ∷ m) (fresh, i) =
      (ground (arith, e.eq_test_iff k k), entries-extend k v m m fresh (IsMap-get m i))

  pub insert-All {μ} :
      (P : K × V → Type μ) (m : HashMap K V) (k : K) (v : V)
      → P (k, v)
      → All P m
      → All P (insert m k v)
  unfolding insert
  insert-All P [] k v p ps = (p, tt)
  insert-All P ((j, w) ∷ m) k v p (q, ps) = elim (Bool-cases (j == k)) [
    | inl same ↦ rw (same, insert) (p, ps)
    | inr other ↦ rw (other, insert) (q, insert-All P m k v p ps)
  ]
