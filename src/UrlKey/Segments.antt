-- ===== src/UrlKey/Segments.antt =====
-- The query segments of src/url_key.rs: split on '&', drop the empty ones, sort as byte strings.
use mathlib.Core.List.{Perm, Permᴰ}
use mathlib.Core.Logic.{∥∥₁_elim}
use link_r.Prelude.{
  ℕ, ◌≡◌, refl, ◌∙◌, Bool, true, false, List, [], ◌∷◌, Bytes, ltb, if◌then◌else◌, ◌==◌, nat_eq,
  arith,
}

abbrev pub cons_head : ℕ → List Bytes → List Bytes
cons_head c [] = (c ∷ []) ∷ []
cons_head c (s ∷ ss) = (c ∷ s) ∷ ss

-- `s.split(sep)`
unfoldable pub split : ℕ → Bytes → List Bytes
split sep [] = [] ∷ []
split sep (c ∷ cs) = let rest = split sep cs in if c == sep then [] ∷ rest else cons_head c rest

-- `.filter(|q| !q.is_empty())`
unfoldable pub non_empty : List Bytes → List Bytes
non_empty [] = []
non_empty ([] ∷ ss) = non_empty ss
non_empty ((c ∷ s) ∷ ss) = (c ∷ s) ∷ non_empty ss

-- The byte-wise order of `str`.
unfoldable pub bytes_leb : Bytes → Bytes → Bool
bytes_leb [] b = true
bytes_leb (x ∷ xs) [] = false
bytes_leb (x ∷ xs) (y ∷ ys) =
    let rest = bytes_leb xs ys in if ltb x y then true else if x == y then rest else false

unfoldable pub insert_sorted : Bytes → List Bytes → List Bytes
insert_sorted a [] = a ∷ []
insert_sorted a (b ∷ l) =
    let rest = insert_sorted a l in if bytes_leb a b then a ∷ b ∷ l else b ∷ rest

-- `segs.sort_unstable()`: equal segments cannot be told apart.
unfoldable pub sort : List Bytes → List Bytes
unfolding insert_sorted bytes_leb
sort [] = []
sort (a ∷ l) = insert_sorted a (sort l)

leb_total : (a b : Bytes) → bytes_leb a b ≡ false → bytes_leb b a ≡ true
unfolding bytes_leb
leb_total [] b h = ground arith
leb_total (x ∷ xs) [] h = refl
leb_total (x ∷ xs) (y ∷ ys) h = ground (arith, leb_total xs ys)

leb_antisymm : (a b : Bytes) → bytes_leb a b ≡ true → bytes_leb b a ≡ true → a ≡ b
unfolding bytes_leb
leb_antisymm [] [] h k = refl
leb_antisymm [] (y ∷ ys) h k = ground arith
leb_antisymm (x ∷ xs) [] h k = ground arith
leb_antisymm (x ∷ xs) (y ∷ ys) h k = ground (arith, leb_antisymm xs ys)

leb_trans : (a b c : Bytes) → bytes_leb a b ≡ true → bytes_leb b c ≡ true → bytes_leb a c ≡ true
unfolding bytes_leb
leb_trans [] b c h k = refl
leb_trans (x ∷ xs) [] c h k = ground arith
leb_trans (x ∷ xs) (y ∷ ys) [] h k = ground arith
leb_trans (x ∷ xs) (y ∷ ys) (z ∷ zs) h k = ground (arith, leb_trans xs ys zs)

insert_sorted_comm :
    (a b : Bytes) (l : List Bytes)
    → insert_sorted a (insert_sorted b l) ≡ insert_sorted b (insert_sorted a l)
unfolding insert_sorted
insert_sorted_comm a b [] = ground (arith, leb_total a b, leb_total b a, leb_antisymm a b)
insert_sorted_comm a b (c ∷ l) = ground (
  arith,
  leb_total a b,
  leb_total b a,
  leb_antisymm a b,
  leb_trans a b c,
  leb_trans b a c,
  leb_total a c,
  leb_total b c,
  leb_trans a c b,
  leb_trans b c a,
  insert_sorted_comm a b l,
)

sort-perm : {xs ys : List Bytes} → Permᴰ xs ys → sort xs ≡ sort ys
unfolding sort
sort-perm Permᴰ.nil = refl
sort-perm (Permᴰ.cons {l₁ = xs} e p) = cc (e, sort-perm p)
sort-perm (Permᴰ.swap {a = a} {b = b} {l = l} e f) = cc (e, f, insert_sorted_comm a b (sort l))
sort-perm (Permᴰ.trans p q) = sort-perm p ∙ sort-perm q

-- Sorting forgets the order.
pub sort-eq_of_perm : {xs ys : List Bytes} → Perm xs ys → sort xs ≡ sort ys
sort-eq_of_perm p = ∥∥₁_elim p (hlevel) sort-perm
