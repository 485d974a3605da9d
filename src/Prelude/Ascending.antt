-- ===== src/Prelude/Ascending.antt =====
-- Ascending lists of numbers: what iterating a set of them yields.
use Prim.Native.Nat.{ℕ, suc, zero, ◌<◌}
use mathlib.Core.Path.{◌≡◌, refl}
use mathlib.Core.Logic.{inl, inr}
use mathlib.Core.Bool.{◌||◌}
use mathlib.Core.List.{List, [], ◌∷◌}
use native.Mathlib.Omega.{arith}
use link_r.Prelude.Tests.{ltb, nat_beq, Bool-cases, if◌then◌else◌, ltb→lt}
use link_r.Prelude.Lists.{All, All-map, any}

-- Each number is less than those behind it.
abbrev pub IsAscending : List ℕ → Type 0
IsAscending [] = Unit
IsAscending (i ∷ l) = All (λ j. i < j) l × IsAscending l

unfoldable pub insert_asc : ℕ → List ℕ → List ℕ
insert_asc i [] = i ∷ []
insert_asc i (j ∷ l) =
    let rest = insert_asc i l in
    if ltb i j then i ∷ j ∷ l else if nat_beq i j then j ∷ l else j ∷ rest

insert_asc-All {κ} : (P : ℕ → Type κ) (i : ℕ) (l : List ℕ) → P i → All P l → All P (insert_asc i l)
unfolding insert_asc
insert_asc-All P i [] p ps = (p, tt)
insert_asc-All P i (j ∷ l) p (q, ps) = elim (Bool-cases (ltb i j)) [
  | inl less ↦ rw (less, insert_asc) (p, (q, ps))
  | inr not_less ↦ elim (Bool-cases (nat_beq i j)) [
    | inl same ↦ rw (not_less, same, insert_asc) (q, ps)
    | inr apart ↦ rw (not_less, apart, insert_asc) (q, insert_asc-All P i l p ps)
  ]
]

pub insert_asc-IsAscending : (i : ℕ) (l : List ℕ) → IsAscending l → IsAscending (insert_asc i l)
unfolding insert_asc
insert_asc-IsAscending i [] s = (tt, tt)
insert_asc-IsAscending i (j ∷ l) (ps, s) = elim (Bool-cases (ltb i j)) [
  | inl less ↦
      let lt = ltb→lt i j less in
      rw (less, insert_asc) ((lt, All-map _ _ (λ k p. omega arith) l ps), (ps, s))
  | inr not_less ↦ elim (Bool-cases (nat_beq i j)) [
    | inl same ↦ rw (not_less, same, insert_asc) (ps, s)
    | inr apart ↦
        let lt : j < i = ground arith in
        rw (not_less, apart, insert_asc)
          (insert_asc-All (λ k. j < k) i l lt ps, insert_asc-IsAscending i l s)
  ]
]

pub any-insert_asc :
    (i j : ℕ) (l : List ℕ)
    → any (λ k. nat_beq k j) (insert_asc i l) ≡ (nat_beq i j || any (λ k. nat_beq k j) l)
unfolding insert_asc
any-insert_asc i j [] = refl
any-insert_asc i j (k ∷ l) = ground (arith, any-insert_asc i j l)

-- The numbers from `start` on.
unfoldable pub iota : ℕ → ℕ → List ℕ
iota start zero = []
iota start (suc n) = start ∷ iota (suc start) n

iota-All : (start low n : ℕ) → low < start → All (λ j. low < j) (iota start n)
unfolding iota
iota-All start low zero h = tt
iota-All start low (suc n) h = (h, iota-All (suc start) low n (omega arith))

pub iota-IsAscending : (start n : ℕ) → IsAscending (iota start n)
unfolding iota
iota-IsAscending start zero = tt
iota-IsAscending start (suc n) =
    (iota-All (suc start) start n (omega arith), iota-IsAscending (suc start) n)
