-- ===== src/UrlKey/SameQuery.antt =====
-- When two queries have the same segments, up to their order and to empty ones (src/url_key.rs).
use mathlib.Core.List.{Perm}
use mathlib.Core.List.Perm
use link_r.Prelude.{
  ◌≡◌, ◌≢◌, refl, sym, ap, subst, ◌∙◌, Option, none, some, List, [], ◌∷◌, ◌++◌, Bytes, All, ◌==◌,
  nat_eq, nat_beq_iff, arith, false,
}
use link_r.UrlKey.Segments.{split, non_empty}

-- The text of a query with these segments.
abbrev pub join : List Bytes → Bytes
join [] = []
join (s ∷ []) = s
join (s ∷ t ∷ l) = let rest = join (t ∷ l) in s ++ 38 ∷ rest

-- A segment holds no '&'.
abbrev pub IsSegment : Bytes → Type 0
IsSegment s = All (λ c. c ≢ 38) s

-- Lists of segments up to their order and to empty ones.
pub data SameSegments : List Bytes → List Bytes → Type 0 where
  done : SameSegments [] []
  keep : {l m : List Bytes} (s : Bytes) → SameSegments l m → SameSegments (s ∷ l) (s ∷ m)
  skip_left : {l m : List Bytes} → SameSegments l m → SameSegments ([] ∷ l) m
  skip_right : {l m : List Bytes} → SameSegments l m → SameSegments l ([] ∷ m)
  swap : (s t : Bytes) (l : List Bytes) → SameSegments (s ∷ t ∷ l) (t ∷ s ∷ l)
  trans : {l m n : List Bytes} → SameSegments l m → SameSegments m n → SameSegments l n

-- The text of a query; a missing one reads as empty.
abbrev pub text : Option Bytes → Bytes
text none = []
text (some q) = q

pub record SameQuery (a b : Option Bytes) : Type 0 where
  pub left : List Bytes
  pub right : List Bytes
  pub text_left : text a ≡ join left
  pub text_right : text b ≡ join right
  pub left_segments : All IsSegment left
  pub right_segments : All IsSegment right
  pub same : SameSegments left right

non_empty-swap :
    (s t : Bytes) (l : List Bytes) → Perm (non_empty (s ∷ t ∷ l)) (non_empty (t ∷ s ∷ l))
unfolding non_empty
non_empty-swap [] [] l = Perm.refl (non_empty l)
non_empty-swap [] (d ∷ t) l = Perm.refl ((d ∷ t) ∷ non_empty l)
non_empty-swap (c ∷ s) [] l = Perm.refl ((c ∷ s) ∷ non_empty l)
non_empty-swap (c ∷ s) (d ∷ t) l = Perm.swap (d ∷ t) (c ∷ s) (non_empty l)

non_empty-keep :
    (s : Bytes) (l m : List Bytes)
    → Perm (non_empty l) (non_empty m)
    → Perm (non_empty (s ∷ l)) (non_empty (s ∷ m))
unfolding non_empty
non_empty-keep [] l m p = p
non_empty-keep (c ∷ s) l m p = Perm.cons (c ∷ s) p

non_empty-SameSegments : {l m : List Bytes} → SameSegments l m → Perm (non_empty l) (non_empty m)
unfolding non_empty
non_empty-SameSegments done = Perm.nil
non_empty-SameSegments (keep {l = l} {m = m} s h) = non_empty-keep s l m (non_empty-SameSegments h)
non_empty-SameSegments (skip_left h) = non_empty-SameSegments h
non_empty-SameSegments (skip_right h) = non_empty-SameSegments h
non_empty-SameSegments (swap s t l) = non_empty-swap s t l
non_empty-SameSegments (trans h k) =
    Perm.trans (non_empty-SameSegments h) (non_empty-SameSegments k)

split-one : (s : Bytes) → IsSegment s → split 38 s ≡ s ∷ []
unfolding split
split-one [] p = refl
split-one (c ∷ s) (ne, p) =
    let apart : (c == 38) ≡ false = ground (arith, nat_beq_iff c 38) in
    rw (apart, split-one s p) refl

split-behind : (s rest : Bytes) → IsSegment s → split 38 (s ++ 38 ∷ rest) ≡ s ∷ split 38 rest
unfolding split
split-behind [] rest p = refl
split-behind (c ∷ s) rest (ne, p) =
    let apart : (c == 38) ≡ false = ground (arith, nat_beq_iff c 38) in
    rw (apart, split-behind s rest p) refl

non_empty-cons :
    (s : Bytes) (l m : List Bytes)
    → non_empty l ≡ non_empty m
    → non_empty (s ∷ l) ≡ non_empty (s ∷ m)
unfolding non_empty
non_empty-cons [] l m e = e
non_empty-cons (c ∷ s) l m e = ap (λ r. (c ∷ s) ∷ r) e

non_empty-split_join :
    (l : List Bytes) → All IsSegment l → non_empty (split 38 (join l)) ≡ non_empty l
unfolding non_empty split
non_empty-split_join [] ps = refl
non_empty-split_join (s ∷ []) (p, ps) = ap non_empty (split-one s p)
non_empty-split_join (s ∷ t ∷ l) (p, ps) =
    ap non_empty (split-behind s (join (t ∷ l)) p)
    ∙ non_empty-cons s (split 38 (join (t ∷ l))) (t ∷ l) (non_empty-split_join (t ∷ l) ps)

pub non_empty-SameQuery :
    {a b : Option Bytes}
    → SameQuery a b
    → Perm (non_empty (split 38 (text a))) (non_empty (split 38 (text b)))
non_empty-SameQuery {b = b} q =
    let from_left =
      ap (λ t. non_empty (split 38 t)) q.text_left ∙ non_empty-split_join q.left q.left_segments in
    let from_right =
      ap (λ t. non_empty (split 38 t)) q.text_right
      ∙ non_empty-split_join q.right q.right_segments in
    subst (λ l. Perm l (non_empty (split 38 (text b)))) (sym from_left)
      (subst (λ l. Perm (non_empty q.left) l) (sym from_right) (non_empty-SameSegments q.same))
