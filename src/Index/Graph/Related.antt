-- ===== src/Index/Graph/Related.antt =====
-- src/index/graph.rs: `Graph::related`, the ranking by connections. The scores are `u32` and wrap.
pub mod Scores
pub mod Order
use link_r.Prelude.{
  ℕ, ◌+◌, ◌%◌, Bool, true, false, ◌&&◌, ◌||◌, Option, none, some, List, [], ◌∷◌, ltb, leb, take,
  u32_mod, if◌then◌else◌, ◌==◌, nat_eq,
}
use link_r.Prelude.HashMap
use link_r.Prelude.HashMap.{HashMap}
use link_r.Resource.{DocId}
use link_r.Index.Graph.Resolve.{Graph, out_neighbors, in_neighbors}

abbrev pub or_zero : Option ℕ → ℕ
or_zero none = 0
or_zero (some n) = n

-- `*score.entry(id).or_insert(0) += w`
unfoldable pub bump : HashMap DocId ℕ → DocId → ℕ → HashMap DocId ℕ
bump score id w = HashMap.insert score id ((or_zero (HashMap.get score id) + w) % u32_mod)

unfoldable pub score_out : HashMap DocId ℕ → List DocId → HashMap DocId ℕ
score_out score [] = score
score_out score (t ∷ targets) = score_out (bump score t 2) targets

unfoldable pub score_siblings : DocId → HashMap DocId ℕ → List DocId → HashMap DocId ℕ
score_siblings doc score [] = score
score_siblings doc score (sibling ∷ siblings) =
    score_siblings doc (if sibling == doc then score else bump score sibling 1) siblings

unfoldable pub score_parents : Graph → DocId → HashMap DocId ℕ → List DocId → HashMap DocId ℕ
score_parents self doc score [] = score
score_parents self doc score (parent ∷ parents) =
    score_parents self doc (score_siblings doc score (out_neighbors self parent)) parents

unfoldable pub score_of : Graph → DocId → HashMap DocId ℕ
score_of self doc =
    HashMap.remove
      (score_parents self doc (score_out [] (out_neighbors self doc)) (in_neighbors self doc)) doc

-- The order of the result: by score, descending, then by id. The ids differ, so it is total.
abbrev pub before : (DocId × ℕ) → (DocId × ℕ) → Bool
before a b = ltb b.1 a.1 || (a.1 == b.1 && leb a.0 b.0)

unfoldable pub insert_ranked : (DocId × ℕ) → List (DocId × ℕ) → List (DocId × ℕ)
insert_ranked a [] = a ∷ []
insert_ranked a (b ∷ l) = let rest = insert_ranked a l in if before a b then a ∷ b ∷ l else b ∷ rest

-- `sort_unstable_by`
unfoldable pub rank : List (DocId × ℕ) → List (DocId × ℕ)
rank [] = []
rank (a ∷ l) = insert_ranked a (rank l)

unfoldable pub related : Graph → DocId → ℕ → List (DocId × ℕ)
related self doc k = if k == 0 then [] else take k (rank (score_of self doc))
