-- ===== src/Prelude/Slices.antt =====
-- Slices of flat vectors: fixed-width rows, overwriting a range, and `Vec::swap_remove`.
use Prim.Native.Nat.{ℕ, zero, suc, ◌+◌, ◌-◌, ◌≤◌, ◌<◌}
use mathlib.Core.Path.{◌≡◌, refl, sym, ap, ◌∙◌}
use mathlib.Core.Logic.{inl, inr}
use mathlib.Core.List.{List, [], ◌∷◌, ◌++◌}
use mathlib.Core.Option.{Option, none, some}
use native.Mathlib.Nat.{zero-add, suc-add}
use native.Mathlib.Omega.{arith}
use link_r.Prelude.Tests.{ltb, nat_beq, nat_beq_iff, Bool-cases, if◌then◌else◌}
use link_r.Prelude.Lists.{
  length, get_elem?, set, take, drop, length-append, length-take, length-drop, length-set,
  get_elem?_total, get_elem?-take, get_elem?-set_self, get_elem?-set_ne,
}

module _ {ℓ} {A : Type ℓ} where
  -- `v[n .. n + d]`
  abbrev pub slice : ℕ → ℕ → List A → List A
  slice n d xs = take d (drop n xs)

  -- `v[n .. n + d].copy_from_slice(row)`, for a row of length d
  abbrev pub splice : ℕ → ℕ → List A → List A → List A
  splice n d row xs = take n xs ++ (row ++ drop (n + d) xs)

  drop-nil : (n : ℕ) → drop {A = A} n [] ≡ []
  drop-nil zero = refl
  drop-nil (suc n) = refl

  drop-drop : (n m : ℕ) (xs : List A) → drop n (drop m xs) ≡ drop (m + n) xs
  drop-drop n zero xs = rw zero-add
  drop-drop n (suc m) [] = rw (suc-add, drop-nil)
  drop-drop n (suc m) (x ∷ xs) = rw suc-add (drop-drop n m xs)

  take-append_left : (n : ℕ) (xs ys : List A) → n ≤ length xs → take n (xs ++ ys) ≡ take n xs
  take-append_left zero xs ys h = refl
  take-append_left (suc n) [] ys h = absurd (omega arith)
  take-append_left (suc n) (x ∷ xs) ys h = ap (◌∷◌ x) (take-append_left n xs ys (omega arith))

  take-length : (xs : List A) → take (length xs) xs ≡ xs
  take-length [] = refl
  take-length (x ∷ xs) = ap (◌∷◌ x) (take-length xs)

  take-append_self : (xs ys : List A) → take (length xs) (xs ++ ys) ≡ xs
  take-append_self [] ys = refl
  take-append_self (x ∷ xs) ys = ap (◌∷◌ x) (take-append_self xs ys)

  drop-append_left : (n : ℕ) (xs ys : List A) → n ≤ length xs → drop n (xs ++ ys) ≡ drop n xs ++ ys
  drop-append_left zero xs ys h = refl
  drop-append_left (suc n) [] ys h = absurd (omega arith)
  drop-append_left (suc n) (x ∷ xs) ys h = drop-append_left n xs ys (omega arith)

  drop-append_right :
      (m : ℕ) (xs ys : List A) → length xs ≤ m → drop m (xs ++ ys) ≡ drop (m - length xs) ys
  drop-append_right m [] ys h = ap (λ k. drop k ys) (omega arith)
  drop-append_right zero (x ∷ xs) ys h = absurd (omega arith)
  drop-append_right (suc m) (x ∷ xs) ys h =
      drop-append_right m xs ys (omega arith) ∙ ap (λ k. drop k ys) (omega arith)

  take-take : (d n : ℕ) (xs : List A) → d ≤ n → take d (take n xs) ≡ take d xs
  take-take zero n xs h = refl
  take-take (suc d) zero xs h = absurd (omega arith)
  take-take (suc d) (suc n) [] h = refl
  take-take (suc d) (suc n) (x ∷ xs) h = ap (◌∷◌ x) (take-take d n xs (omega arith))

  drop-take : (m k : ℕ) (xs : List A) → drop m (take (m + k) xs) ≡ take k (drop m xs)
  drop-take zero k xs = rw zero-add
  drop-take (suc m) k [] = rw suc-add (sym (take-nil k))
    where
      take-nil : (k : ℕ) → take {A = A} k [] ≡ []
      take-nil zero = refl
      take-nil (suc k) = refl
  drop-take (suc m) k (x ∷ xs) = rw suc-add (drop-take m k xs)

  pub slice-append_left :
      (n d : ℕ) (xs ys : List A) → n + d ≤ length xs → slice n d (xs ++ ys) ≡ slice n d xs
  slice-append_left n d xs ys h =
      ap (take d) (drop-append_left n xs ys (omega arith))
      ∙ take-append_left d (drop n xs) ys (omega (arith, length-drop n xs))

  -- A vector pushed at the end is the slice there.
  pub slice-append_end :
      (n : ℕ) (xs ys : List A) → length xs ≡ n → slice n (length ys) (xs ++ ys) ≡ ys
  slice-append_end n xs ys e =
      ap (take (length ys))
        (drop-append_right n xs ys (omega arith) ∙ ap (λ k. drop k ys) {y = zero} (omega arith))
      ∙ take-length ys

  pub slice-take : (m d n : ℕ) (xs : List A) → m + d ≤ n → slice m d (take n xs) ≡ slice m d xs
  slice-take m d n xs h =
      let split : n ≡ m + (n - m) = omega arith in
      ap (λ k. slice m d (take k xs)) split
      ∙ (ap (take d) (drop-take m (n - m) xs) ∙ take-take d (n - m) (drop m xs) (omega arith))

  module _ (n d : ℕ) (row xs : List A) (width : length row ≡ d) (fits : n + d ≤ length xs) where
    length-before : length (take n xs) ≡ n
    length-before = omega (arith, length-take n xs)

    -- The overwritten range reads as what was written.
    pub slice-splice_self : slice n d (splice n d row xs) ≡ row
    slice-splice_self =
        let rest = row ++ drop (n + d) xs in
        ap (take d) (
          drop-append_right n (take n xs) rest (omega (arith, length-before))
          ∙ ap (λ k. drop k rest) {y = zero} (omega (arith, length-before)))
        ∙ (ap (λ k. take k rest) (sym width) ∙ take-append_self row (drop (n + d) xs))

    -- A range below or above is left alone.
    pub slice-splice_below : (m e : ℕ) → m + e ≤ n → slice m e (splice n d row xs) ≡ slice m e xs
    slice-splice_below m e h =
        slice-append_left m e (take n xs) (row ++ drop (n + d) xs) (omega (arith, length-before))
        ∙ slice-take m e n xs h

    drop-splice : (m : ℕ) → n + d ≤ m → drop m (splice n d row xs) ≡ drop m xs
    drop-splice m h =
        let rest = drop (n + d) xs in
        drop-append_right m (take n xs) (row ++ rest) (omega (arith, length-before))
        ∙ (drop-append_right (m - length (take n xs)) row rest (omega (arith, length-before))
            ∙ (drop-drop (m - length (take n xs) - length row) (n + d) xs
                ∙ ap (λ k. drop k xs) (omega (arith, length-before))))

    pub slice-splice_above : (m e : ℕ) → n + d ≤ m → slice m e (splice n d row xs) ≡ slice m e xs
    slice-splice_above m e h = ap (take e) (drop-splice m h)

    pub length-splice : length (splice n d row xs) ≡ length xs
    length-splice = omega (
      arith,
      length-before,
      length-append (take n xs) (row ++ drop (n + d) xs),
      length-append row (drop (n + d) xs),
      length-drop (n + d) xs,
    )

  -- `Vec::swap_remove`: the last element moves into the hole. `none` is a panic.
  unfoldable pub swap_remove : List A → ℕ → Option (List A)
  swap_remove xs i = elim (get_elem? xs (length xs - 1)) [
    | none ↦ none
    | some last ↦ if ltb i (length xs) then some (take (length xs - 1) (set xs i last)) else none
  ]

module _ {ℓ} {A : Type ℓ} where
  swap_remove_elem :
      (xs : List A) (i j : ℕ) (v : A)
      → get_elem? xs (length xs - 1) ≡ some v
      → j < length xs - 1
      → get_elem? (take (length xs - 1) (set xs i v)) j
        ≡ (if nat_beq j i then get_elem? xs (length xs - 1) else get_elem? xs j)
  swap_remove_elem xs i j v last h =
      get_elem?-take (length xs - 1) (set xs i v) j h ∙ elim (Bool-cases (nat_beq j i)) [
        | inl same ↦
            let e : i ≡ j = sym ((nat_beq_iff j i).0 same) in
            rw (same, last, e) (get_elem?-set_self xs j v (omega arith))
        | inr other ↦ rw other (get_elem?-set_ne xs i j v (λ e. ground arith))
      ]

  swap_remove_at :
      (xs : List A) (i : ℕ) (v : A)
      → get_elem? xs (length xs - 1) ≡ some v
      → i < length xs
      → swap_remove xs i ≡ some (take (length xs - 1) (set xs i v))
  unfolding swap_remove
  swap_remove_at xs i v last h = ground (arith, last)

  length-swap_remove :
      (xs : List A) (i : ℕ) (v : A)
      → i < length xs
      → length (take (length xs - 1) (set xs i v)) ≡ length xs - 1
  length-swap_remove xs i v h =
      omega (arith, length-take (length xs - 1) (set xs i v), length-set xs i v)

  -- In range it succeeds, the vector is one shorter, and the hole holds what was last.
  pub swap_remove_lem :
      (xs : List A) (i n : ℕ)
      → i < length xs
      → length xs ≡ suc n
      → (ys : List A) × (swap_remove xs i ≡ some ys)
        × (length ys ≡ n)
        × ((j : ℕ)
            → j < n
            → get_elem? ys j ≡ (if nat_beq j i then get_elem? xs n else get_elem? xs j))
  swap_remove_lem xs i n h len =
      let (v, last) = get_elem?_total xs (length xs - 1) (omega arith) in
      let before : length xs - 1 ≡ n = omega arith in
      (
        take (length xs - 1) (set xs i v),
        swap_remove_at xs i v last h,
        length-swap_remove xs i v h ∙ before,
        λ j below.
            swap_remove_elem xs i j v last (omega arith)
            ∙ ap (λ k. if nat_beq j i then get_elem? xs k else get_elem? xs j) before,
      )
