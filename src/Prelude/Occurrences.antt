-- ===== src/Prelude/Occurrences.antt =====
-- How often an element occurs in a list.
use Prim.Native.Nat.{ℕ, zero, suc, ◌+◌}
use mathlib.Core.Path.{◌≡◌, refl}
use mathlib.Core.Logic.{inl, inr}
use mathlib.Core.Bool.{Bool}
use mathlib.Core.List.{List, [], ◌∷◌, ◌++◌}
use native.Mathlib.Omega.{arith}
use link_r.Prelude.Tests.{PartialEq, ◌==◌, if◌then◌else◌, Bool-cases}
use link_r.Prelude.Lists.{replicate}
use link_r.Prelude.SortBy.{insert_by, sort_by}

module _ {ℓ} {A : Type ℓ} ⦃e : PartialEq A⦄ where
  unfoldable pub occurrences : A → List A → ℕ
  occurrences a [] = 0
  occurrences a (b ∷ l) = (if b == a then 1 else 0) + occurrences a l

  pub occurrences-append :
      (a : A) (l r : List A) → occurrences a (l ++ r) ≡ occurrences a l + occurrences a r
  unfolding occurrences
  occurrences-append a [] r = omega arith
  occurrences-append a (b ∷ l) r = ground (arith, occurrences-append a l r)

  pub occurrences-replicate :
      (a b : A) (n : ℕ) → occurrences a (replicate n b) ≡ (if b == a then n else 0)
  unfolding occurrences
  occurrences-replicate a b zero = ground arith
  occurrences-replicate a b (suc n) = ground (arith, occurrences-replicate a b n)

  occurrences-insert_by :
      (first : A → A → Bool) (a b : A) (l : List A)
      → occurrences a (insert_by first b l) ≡ occurrences a (b ∷ l)
  unfolding occurrences insert_by
  occurrences-insert_by first a b [] = refl
  occurrences-insert_by first a b (c ∷ l) = elim (Bool-cases (first b c)) [
    | inl before ↦ rw (before, insert_by) refl
    | inr behind ↦ rw (behind, insert_by) (omega (arith, occurrences-insert_by first a b l))
  ]

  pub occurrences-sort_by :
      (first : A → A → Bool) (a : A) (l : List A)
      → occurrences a (sort_by first l) ≡ occurrences a l
  unfolding occurrences sort_by
  occurrences-sort_by first a [] = refl
  occurrences-sort_by first a (b ∷ l) =
      omega
        (arith, occurrences-insert_by first a b (sort_by first l), occurrences-sort_by first a l)
