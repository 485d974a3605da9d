-- ===== src/Prelude/HashSet.antt =====
-- `HashSet<u64>` as a list without an order, and occurrence counts of keys.
use mathlib.Core.Path.{◌≡◌, refl}
use mathlib.Core.Bool.{Bool, false, ◌||◌}
use mathlib.Core.List.{List, [], ◌∷◌, ◌++◌}
use Prim.Native.Nat.{ℕ, ◌+◌}
use native.Mathlib.Omega.{arith}
use mathlib.Core.Logic.{inl, inr}
use link_r.Prelude.Tests.{nat_beq, nat_beq_iff, Bool-cases, if◌then◌else◌}

abbrev pub HashSet : Type 0
HashSet = List ℕ

unfoldable pub contains : HashSet → ℕ → Bool
contains [] k = false
contains (j ∷ s) k = nat_beq j k || contains s k

-- `insert`, without its result: that is the negation of `contains` before.
unfoldable pub insert : HashSet → ℕ → HashSet
insert s k = if contains s k then s else k ∷ s

pub contains-insert :
    (s : HashSet) (k j : ℕ) → contains (insert s k) j ≡ (nat_beq k j || contains s j)
unfolding insert contains
contains-insert s k j = elim (Bool-cases (contains s k)) [
  | inl h ↦ ground (arith, nat_beq_iff k j)
  | inr h ↦ rw h refl
]

unfoldable pub count : ℕ → List ℕ → ℕ
count k [] = 0
count k (j ∷ l) = (if nat_beq j k then 1 else 0) + count k l

pub count-append : (k : ℕ) (a b : List ℕ) → count k (a ++ b) ≡ count k a + count k b
unfolding count
count-append k [] b = omega arith
count-append k (j ∷ a) b = ground (arith, count-append k a b)

pub contains-nil : (k : ℕ) → contains [] k ≡ false
unfolding contains
contains-nil k = refl
