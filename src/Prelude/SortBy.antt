-- ===== src/Prelude/SortBy.antt =====
-- `sort_by` and `sort_unstable_by` by a test of which of two elements stands first, and lists in
-- that order. `truncate` is `take`.
use Prim.Native.Nat.{ℕ, zero, suc, ◌≤◌, min}
use mathlib.Core.Path.{◌≡◌, refl, sym, ap}
use mathlib.Core.Logic.{inl, inr}
use mathlib.Core.Bool.{Bool, true, false}
use mathlib.Core.List.{List, [], ◌∷◌, ◌++◌, Perm}
use mathlib.Core.List.Perm
use mathlib.Core.Option.{Option, none, some}
use native.Mathlib.Omega.{arith}
use link_r.Prelude.Tests.{if◌then◌else◌, Bool-cases}
use link_r.Prelude.Lists.{length, take, drop, All, All-map, length-take}

module _ {ℓ} {A : Type ℓ} where
  unfoldable pub insert_by : (A → A → Bool) → A → List A → List A
  insert_by first a [] = a ∷ []
  insert_by first a (b ∷ l) =
      let rest = insert_by first a l in if first a b then a ∷ b ∷ l else b ∷ rest

  unfoldable pub sort_by : (A → A → Bool) → List A → List A
  sort_by first [] = []
  sort_by first (a ∷ l) = insert_by first a (sort_by first l)

  -- No element stands behind one that it should stand before.
  abbrev pub IsSortedBy : (A → A → Bool) → List A → Type 0
  IsSortedBy first [] = Unit
  IsSortedBy first (a ∷ l) = All (λ b. first a b ≡ true) l × IsSortedBy first l

module _ {ℓ} {A : Type ℓ} where
  -- `peek` of a heap in its order.
  abbrev pub last : List A → Option A
  last [] = none
  last (a ∷ []) = some a
  last (a ∷ b ∷ l) = last (b ∷ l)

  pub take-take_le : (k n : ℕ) (l : List A) → k ≤ n → take k (take n l) ≡ take k l
  take-take_le zero n l h = refl
  take-take_le (suc k) zero l h = absurd (omega arith)
  take-take_le (suc k) (suc n) [] h = refl
  take-take_le (suc k) (suc n) (a ∷ l) h = ap (λ r. a ∷ r) (take-take_le k n l (omega arith))

  take-take_cons : (k : ℕ) (b : A) (l : List A) → take k (b ∷ l) ≡ take k (b ∷ take k l)
  take-take_cons zero b l = refl
  take-take_cons (suc k) b l = ap (λ r. b ∷ r) (sym (take-take_le k (suc k) l (omega arith)))

  pub take-length : (n : ℕ) (l : List A) → length l ≤ n → take n l ≡ l
  take-length zero [] h = refl
  take-length zero (a ∷ l) h = absurd (omega arith)
  take-length (suc n) [] h = refl
  take-length (suc n) (a ∷ l) h = ap (λ r. a ∷ r) (take-length n l (omega arith))

  pub take-append_length : (l r : List A) → take (length l) (l ++ r) ≡ l
  take-append_length [] r = refl
  take-append_length (a ∷ l) r = ap (λ t. a ∷ t) (take-append_length l r)

module _ {ℓ} {A : Type ℓ} (first : A → A → Bool) where
  pub insert_by-before :
      (a b : A) (l : List A) → first a b ≡ true → insert_by first a (b ∷ l) ≡ a ∷ b ∷ l
  unfolding insert_by
  insert_by-before a b l h = rw (h, insert_by) refl

  pub insert_by-behind :
      (a b : A) (l : List A)
      → first a b ≡ false
      → insert_by first a (b ∷ l) ≡ b ∷ insert_by first a l
  unfolding insert_by
  insert_by-behind a b l h = rw (h, insert_by) refl

  pub length-insert_by : (a : A) (l : List A) → length (insert_by first a l) ≡ suc (length l)
  unfolding insert_by
  length-insert_by a [] = refl
  length-insert_by a (b ∷ l) = elim (Bool-cases (first a b)) [
    | inl before ↦ rw (before, insert_by) refl
    | inr behind ↦ rw (behind, insert_by) (ap suc (length-insert_by a l))
  ]

  pub length-sort_by : (l : List A) → length (sort_by first l) ≡ length l
  unfolding sort_by
  length-sort_by [] = refl
  length-sort_by (a ∷ l) = omega (arith, length-insert_by a (sort_by first l), length-sort_by l)

  module _ {κ} (P : A → Type κ) where
    pub insert_by-All : (a : A) (l : List A) → P a → All P l → All P (insert_by first a l)
    unfolding insert_by
    insert_by-All a [] p ps = (p, tt)
    insert_by-All a (b ∷ l) p (q, ps) = elim (Bool-cases (first a b)) [
      | inl before ↦ rw (before, insert_by) (p, (q, ps))
      | inr behind ↦ rw (behind, insert_by) (q, insert_by-All a l p ps)
    ]

    pub sort_by-All : (l : List A) → All P l → All P (sort_by first l)
    unfolding sort_by
    sort_by-All [] ps = tt
    sort_by-All (a ∷ l) (p, ps) = insert_by-All a (sort_by first l) p (sort_by-All l ps)

  -- What an insertion leaves among the first `k` depends on the first `k` only.
  pub take-insert_by :
      (k : ℕ) (a : A) (l : List A)
      → take k (insert_by first a l) ≡ take k (insert_by first a (take k l))
  unfolding insert_by
  take-insert_by zero a l = refl
  take-insert_by (suc k) a [] = refl
  take-insert_by (suc k) a (b ∷ l) = elim (Bool-cases (first a b)) [
    | inl before ↦ rw (before, insert_by) (ap (λ r. a ∷ r) (take-take_cons k b l))
    | inr behind ↦ rw (behind, insert_by) (ap (λ r. b ∷ r) (take-insert_by k a l))
  ]

  -- An element that stands before the last of a full list puts that one out.
  pub take-insert_by_full :
      (n : ℕ) (x : A) (l : List A) {z : A}
      → length l ≡ suc n
      → last l ≡ some z
      → first x z ≡ true
      → take (suc n) (insert_by first x l) ≡ insert_by first x (take n l)
  unfolding insert_by
  take-insert_by_full n x [] len e h = absurd (omega arith)
  take-insert_by_full zero x (a ∷ []) len e h =
      let before : first x a ≡ true = ground arith in rw before refl
  take-insert_by_full (suc n) x (a ∷ []) len e h = absurd (omega arith)
  take-insert_by_full zero x (a ∷ b ∷ l) len e h = absurd (omega arith)
  take-insert_by_full (suc n) x (a ∷ b ∷ l) len e h = elim (Bool-cases (first x a)) [
    | inl before ↦ rw (before, insert_by) refl
    | inr behind ↦
        rw (behind, insert_by) (ap (λ r. a ∷ r) (take-insert_by_full n x (b ∷ l) (omega arith) e h))
  ]

  -- An element that stands before none of the others is the last.
  pub insert_by-last :
      (x : A) (l : List A) → All (λ b. first x b ≡ false) l → insert_by first x l ≡ l ++ x ∷ []
  unfolding insert_by
  insert_by-last x [] ps = refl
  insert_by-last x (b ∷ l) (p, ps) = rw (p, insert_by) (ap (λ r. b ∷ r) (insert_by-last x l ps))

  pub sort_by-IsSortedBy : (l : List A) → IsSortedBy first l → sort_by first l ≡ l
  unfolding sort_by insert_by
  sort_by-IsSortedBy [] s = refl
  sort_by-IsSortedBy (a ∷ []) s = refl
  sort_by-IsSortedBy (a ∷ b ∷ l) ((p, ps), s) = rw (sort_by-IsSortedBy (b ∷ l) s, p) refl

-- The test orders: of two elements one stands first, also through a third.
pub record IsOrder {ℓ} {A : Type ℓ} (first : A → A → Bool) : Type ℓ where
  pub total : (a b : A) → first a b ≡ false → first b a ≡ true
  pub trans : (a b c : A) → first a b ≡ true → first b c ≡ true → first a c ≡ true

module _ {ℓ} {A : Type ℓ} (first : A → A → Bool) (o : IsOrder first) where
  insert_by-IsSortedBy :
      (a : A) (l : List A) → IsSortedBy first l → IsSortedBy first (insert_by first a l)
  unfolding insert_by
  insert_by-IsSortedBy a [] s = (tt, tt)
  insert_by-IsSortedBy a (b ∷ l) (ps, s) = elim (Bool-cases (first a b)) [
    | inl before ↦
        rw (before, insert_by) ((before, All-map _ _ (λ c. o.trans a b c before) l ps), (ps, s))
    | inr behind ↦
        rw (behind, insert_by)
          (
            insert_by-All first (λ c. first b c ≡ true) a l (o.total a b behind) ps,
            insert_by-IsSortedBy a l s,
          )
  ]

  pub sort_by_sorts : (l : List A) → IsSortedBy first (sort_by first l)
  unfolding sort_by
  sort_by_sorts [] = tt
  sort_by_sorts (a ∷ l) = insert_by-IsSortedBy a (sort_by first l) (sort_by_sorts l)

module _ {ℓ} {A : Type ℓ} (first : A → A → Bool) where
  insert_by-Perm : (a : A) (l : List A) → Perm (insert_by first a l) (a ∷ l)
  unfolding insert_by
  insert_by-Perm a [] = Perm.refl (a ∷ [])
  insert_by-Perm a (b ∷ l) = elim (Bool-cases (first a b)) [
    | inl before ↦ rw (before, insert_by) (Perm.refl (a ∷ b ∷ l))
    | inr behind ↦
        rw (behind, insert_by) (Perm.trans (Perm.cons b (insert_by-Perm a l)) (Perm.swap a b l))
  ]

  pub sort_by-Perm : (l : List A) → Perm (sort_by first l) l
  unfolding sort_by
  sort_by-Perm [] = Perm.nil
  sort_by-Perm (a ∷ l) =
      Perm.trans (insert_by-Perm a (sort_by first l)) (Perm.cons a (sort_by-Perm l))

  -- The first `k` in the order: sorted, and everything that is left out stands behind them.
  pub record IsTop (k : ℕ) (l top : List A) : Type ℓ where
    pub size : length top ≡ min k (length l)
    pub sorted : IsSortedBy first top
    pub rest : List A
    pub whole : Perm (top ++ rest) l
    pub behind : All (λ a. All (λ b. first a b ≡ true) rest) top

take-append-drop {ℓ} : {A : Type ℓ} (k : ℕ) (l : List A) → take k l ++ drop k l ≡ l
take-append-drop zero l = refl
take-append-drop (suc k) [] = refl
take-append-drop (suc k) (a ∷ l) = ap (λ r. a ∷ r) (take-append-drop k l)

module _ {ℓ κ} {A : Type ℓ} (P : A → Type κ) where
  pub take-All : (k : ℕ) (l : List A) → All P l → All P (take k l)
  take-All zero l ps = tt
  take-All (suc k) [] ps = tt
  take-All (suc k) (a ∷ l) (p, ps) = (p, take-All k l ps)

  drop-All : (k : ℕ) (l : List A) → All P l → All P (drop k l)
  drop-All zero l ps = ps
  drop-All (suc k) [] ps = tt
  drop-All (suc k) (a ∷ l) (p, ps) = drop-All k l ps

module _ {ℓ} {A : Type ℓ} (first : A → A → Bool) where
  pub take-IsSortedBy : (k : ℕ) (l : List A) → IsSortedBy first l → IsSortedBy first (take k l)
  take-IsSortedBy zero l s = tt
  take-IsSortedBy (suc k) [] s = tt
  take-IsSortedBy (suc k) (a ∷ l) (ps, s) = (take-All _ k l ps, take-IsSortedBy k l s)

  take-behind-drop :
      (k : ℕ) (l : List A)
      → IsSortedBy first l
      → All (λ a. All (λ b. first a b ≡ true) (drop k l)) (take k l)
  take-behind-drop zero l s = tt
  take-behind-drop (suc k) [] s = tt
  take-behind-drop (suc k) (a ∷ l) (ps, s) = (drop-All _ k l ps, take-behind-drop k l s)

  pub take-sort_by-IsTop :
      (k : ℕ) (l : List A) → IsOrder first → IsTop first k l (take k (sort_by first l))
  take-sort_by-IsTop k l o =
      let sorted = sort_by_sorts first o l in
      record {
        size = omega (arith, length-take k (sort_by first l), length-sort_by first l);
        sorted = take-IsSortedBy k (sort_by first l) sorted;
        rest = drop k (sort_by first l);
        whole = rw (take-append-drop k (sort_by first l)) (sort_by-Perm first l);
        behind = take-behind-drop k (sort_by first l) sorted;
      }
