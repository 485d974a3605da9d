-- ===== src/Examples/Layout.antt =====
-- The sections of a container, one after another, each behind its kind, its flags and its length.
use link_r.Prelude.{
  ℕ, zero, suc, ◌+◌, ◌-◌, ◌≤◌, ◌≡◌, refl, ap, inl, inr, true, false, Option, none, some, List, [],
  ◌∷◌, ◌++◌, Bytes, length, length-append, take, drop, slice, arith, if◌then◌else◌, ◌==◌, nat_eq,
  Bool-cases, subst,
}
use mathlib.Core.List.{append_assoc}
use native.Mathlib.Nat.{zero-add, suc-add}
use link_r.External.{Section, stored}
use link_r.Examples.Setup.{bitmap}
use link_r.Examples.Instances.{byte_io, byte_at, float_io, float_bits, zstd}

abbrev pub put_all : List Section → Bytes
put_all [] = []
put_all (s ∷ sections) =
    let rest = put_all sections in
    if length s.bytes == 0 then rest else s.kind ∷ s.flags ∷ length s.bytes ∷ (s.bytes ++ rest)

-- Where a section stands.
pub record Entry : Type 0 where
  pub kind : ℕ
  pub flags : ℕ
  pub start : ℕ
  pub len : ℕ

abbrev pub walk : ℕ → ℕ → Bytes → List Entry
walk zero pos r = []
walk (suc fuel) pos (k ∷ f ∷ n ∷ r) =
    record { kind = k; flags = f; start = pos + 3; len = n } ∷ walk fuel (pos + 3 + n) (drop n r)
walk (suc fuel) pos _ = []

abbrev pub lookup : List Entry → ℕ → Option Entry
lookup [] k = none
lookup (e ∷ l) k = if e.kind == k then some e else lookup l k

abbrev pub read : Bytes → Option Entry → Option (ℕ × Bytes)
read image none = none
read image (some e) = some (e.flags, slice e.start e.len image)

pub drop-length : (l r : Bytes) → drop (length l) (l ++ r) ≡ r
drop-length [] r = refl
drop-length (c ∷ l) r = drop-length l r

pub take-length : (l r : Bytes) → take (length l) (l ++ r) ≡ l
take-length [] r = refl
take-length (c ∷ l) r = ap (λ t. c ∷ t) (take-length l r)

-- An entry of the table lies in the image.
abbrev pub IsInside : Bytes → Option Entry → Type 0
IsInside image none = Unit
IsInside image (some e) = e.start + e.len ≤ length image

put_full :
    (s : Section) (sections : List Section)
    → (length s.bytes == 0) ≡ false
    → put_all (s ∷ sections) ≡ s.kind ∷ s.flags ∷ length s.bytes ∷ (s.bytes ++ put_all sections)
put_full s sections h = rw h refl

put_empty :
    (s : Section) (sections : List Section)
    → (length s.bytes == 0) ≡ true
    → put_all (s ∷ sections) ≡ put_all sections
put_empty s sections h = rw h refl

drop_before : (before r : Bytes) (k : ℕ) → drop (length before + k) (before ++ r) ≡ drop k r
drop_before [] r k = rw zero-add refl
drop_before (c ∷ before) r k = rw (suc-add (length before) k) (drop_before before r k)

-- The table and the image agree on a kind.
abbrev pub Agrees : Bytes → Option Entry → Option (ℕ × Bytes) → Type 0
Agrees image e want = (read image e ≡ want) × IsInside image e

walk_entry :
    (before : Bytes) (s : Section) (r : Bytes) (fuel k : ℕ) (want : Option (ℕ × Bytes))
    → Agrees
        ((before ++ s.kind ∷ s.flags ∷ length s.bytes ∷ s.bytes) ++ r)
        (lookup (walk fuel (length (before ++ s.kind ∷ s.flags ∷ length s.bytes ∷ s.bytes)) r) k)
        want
    → Agrees
        (before ++ s.kind ∷ s.flags ∷ length s.bytes ∷ (s.bytes ++ r))
        (lookup
          (walk (suc fuel) (length before) (s.kind ∷ s.flags ∷ length s.bytes ∷ (s.bytes ++ r)))
          k)
        (if s.kind == k then some (s.flags, s.bytes) else want)
walk_entry before s r fuel k want rest =
    let n = length s.bytes in
    let entry = s.kind ∷ s.flags ∷ n ∷ s.bytes in
    let whole : (before ++ entry) ++ r ≡ before ++ s.kind ∷ s.flags ∷ n ∷ (s.bytes ++ r) =
      append_assoc before entry r in
    let pos : length (before ++ entry) ≡ length before + 3 + n =
      omega (arith, length-append before entry) in
    let behind : drop n (s.bytes ++ r) ≡ r = drop-length s.bytes r in
    elim (Bool-cases (s.kind == k)) [
      | inl own ↦
          let at = drop_before before (s.kind ∷ s.flags ∷ n ∷ (s.bytes ++ r)) 3 in
          rw (own, at, take-length s.bytes r)
            (
              refl,
              omega (
                arith,
                length-append before (s.kind ∷ s.flags ∷ n ∷ (s.bytes ++ r)),
                length-append s.bytes r,
              ),
            )
      | inr other ↦
          rw (other, behind)
            (subst (λ image. Agrees image (lookup (walk fuel (length before + 3 + n) r) k) want)
              whole
              (subst (λ p. Agrees ((before ++ entry) ++ r) (lookup (walk fuel p r) k) want) pos
                rest))
    ]

-- The table of a part of the file, which stands behind `before`.
pub walk_put :
    (before : Bytes) (sections : List Section) (fuel k : ℕ)
    → length (put_all sections) ≤ fuel
    → Agrees
        (before ++ put_all sections)
        (lookup (walk fuel (length before) (put_all sections)) k)
        (stored k sections)
unfolding stored
walk_put before [] zero k enough = (refl, tt)
walk_put before [] (suc fuel) k enough = (refl, tt)
walk_put before (s ∷ sections) fuel k enough = elim (Bool-cases (length s.bytes == 0)) [
  | inl empty ↦
      let rest = walk_put before sections fuel k (rw empty at enough) in
      elim (Bool-cases (s.kind == k)) [
        | inl own ↦ rw (empty, own) rest
        | inr other ↦ rw (empty, other) rest
      ]
  | inr full ↦
      let entry = s.kind ∷ s.flags ∷ length s.bytes ∷ s.bytes in
      let long : suc (suc (suc (length (s.bytes ++ put_all sections)))) ≤ fuel =
        rw full at enough in
      let less : suc (fuel - 1) ≡ fuel = omega arith in
      let rest =
        walk_put (before ++ entry) sections (fuel - 1) k
          (omega (arith, long, length-append s.bytes (put_all sections))) in
      rw full (
        subst
          (λ m.
            Agrees (before ++ s.kind ∷ s.flags ∷ length s.bytes ∷ (s.bytes ++ put_all sections))
              (lookup
                (walk m (length before)
                  (s.kind ∷ s.flags ∷ length s.bytes ∷ (s.bytes ++ put_all sections)))
                k)
              (if s.kind == k then some (s.flags, s.bytes) else stored k sections))
          less (walk_entry before s (put_all sections) (fuel - 1) k (stored k sections) rest))
]
