-- ===== src/Index/Dense/TopK.antt =====
-- src/index/dense.rs: `top_k`, the scan with a bounded heap. `BinaryHeap` is its elements in the
-- order of `Scored::cmp`, the greatest last, which is what `peek` and `pop` give where that is a
-- total order.
use link_r.Prelude.{
  ℕ, ◌+◌, ◌-◌, ◌*◌, ◌/◌, ◌%◌, Bool, not, ◌&&◌, ◌||◌, Option, none, some, List, [], ◌∷◌, take,
  length, slice, leb, ltb, if◌then◌else◌, ◌==◌, nat_eq, u32_mod, u64_mod, insert_by, last, iota,
}
use link_r.Error.{Result, ok, panic, ◌>>=◌}
use link_r.External.{Float, Bitmap}
use link_r.Metric.{Metric}
use link_r.Resource.{DocId}
use link_r.Index.Dense.{similarity}
use link_r.Index.Ranking.{sort_hits}

-- An id with its score.
abbrev pub Scored : Type 0 → Type 0
Scored F = DocId × F

-- The ids of the bitmap that are in range.
unfoldable pub in_range : ℕ → List DocId → List DocId
in_range doc_count [] = []
in_range doc_count (id ∷ ids) =
    let rest = in_range doc_count ids in if ltb id doc_count then id ∷ rest else rest

unfoldable pub scanned : ⦃b : Bitmap⦄ → ℕ → Option b.Set → List DocId
scanned ⦃b⦄ doc_count none = iota 0 (doc_count % u32_mod)
scanned ⦃b⦄ doc_count (some allowed) = in_range doc_count (b.iter allowed)

-- `isize::MAX`, the most bytes that an allocation may have.
abbrev pub isize_max : ℕ
isize_max = 9223372036854775807

-- The bytes of `BinaryHeap::with_capacity(k + 1)`, which panics above `isize::MAX`: a `Scored` has
-- 8 bytes, and `k + 1` wraps in the release profile.
unfoldable pub heap_bytes : ℕ → ℕ
heap_bytes k = (k + 1) % u64_mod * 8

module _ {F : Type 0} ⦃f : Float F⦄ where
  -- Whether `Scored::cmp` is not `Greater`: reversed by score, `Less` where the scores do not
  -- compare, then by id.
  unfoldable pub scored_le : Scored F → Scored F → Bool
  scored_le a b = f.gt a.1 b.1 || (not (f.gt b.1 a.1) && (not (f.eq b.1 a.1) || leb a.0 b.0))

  abbrev pub push : List (Scored F) → Scored F → List (Scored F)
  push heap s = insert_by scored_le s heap

  abbrev pub pop : List (Scored F) → List (Scored F)
  pop heap = take (length heap - 1) heap

  -- What `consider` does to the heap with a score.
  unfoldable pub consider_scored : ℕ → List (Scored F) → Scored F → List (Scored F)
  consider_scored k heap s = if ltb (length heap) k then push heap s else elim (last heap) [
    | none ↦ heap
    | some top ↦ if f.gt s.1 top.1 then push (pop heap) s else heap
  ]

  -- `&dense[start..start + dim]`, which panics out of range, and its score.
  unfoldable pub score_doc : List F → List F → ℕ → Metric → DocId → Result (Scored F)
  score_doc query dense dim metric id =
      let start = id * dim in
      if leb (start + dim) (length dense)
      then (do score ← similarity query (slice start dim dense) metric; ok (id, score))
      else panic

  unfoldable pub consider_each :
      List F → List F → ℕ → ℕ → Metric → List (Scored F) → List DocId → Result (List (Scored F))
  consider_each query dense dim k metric heap [] = ok heap
  consider_each query dense dim k metric heap (id ∷ ids) = do
    s ← score_doc query dense dim metric id
    consider_each query dense dim k metric (consider_scored k heap s) ids

  unfoldable pub top_k :
      ⦃b : Bitmap⦄ → List F → List F → ℕ → ℕ → Metric → Option b.Set → Result (List (DocId × F))
  top_k query dense dim k metric allowed =
      if k == 0 || (dim == 0 || not (length query == dim))
      then ok []
      else if ltb isize_max (heap_bytes k)
      then panic
      else (do
        heap ← consider_each query dense dim k metric [] (scanned (length dense / dim) allowed)
        sort_hits heap)
