-- ===== src/Index/Fuse.antt =====
-- src/index/fuse.rs: reciprocal rank fusion.
pub mod Scores
pub mod Sources
use link_r.Prelude.{ℕ, ◌+◌, List, [], ◌∷◌}
use link_r.Prelude.HashMap.{HashMap}
use link_r.Error.{Result}
use link_r.External.{Float}
use link_r.Resource.{DocId}
use link_r.Index.Ranking.{add_score, ranked}

pub record RankList (F : Type 0) : Type 0 where
  pub ids : List DocId
  pub weight : F

module _ {F : Type 0} ⦃f : Float F⦄ where
  unfoldable new : List DocId → RankList F
  new ids = record { ids = ids; weight = f.one }

  abbrev pub weighted : List DocId → F → RankList F
  weighted ids weight = record { ids = ids; weight = weight }

  unfoldable pub rrf_term : F → F → ℕ → F
  rrf_term weight k rank = f.div weight (f.add (f.add k (f.from_nat rank)) f.one)

  -- The loop over the enumerated ids of one list.
  unfoldable pub fuse_list : F → F → HashMap DocId F → ℕ → List DocId → HashMap DocId F
  fuse_list kf weight scores rank [] = scores
  fuse_list kf weight scores rank (id ∷ ids) =
      fuse_list kf weight (add_score scores id (rrf_term weight kf rank)) (rank + 1) ids

  unfoldable pub fuse_lists : F → HashMap DocId F → List (RankList F) → HashMap DocId F
  fuse_lists kf scores [] = scores
  fuse_lists kf scores (list ∷ lists) =
      fuse_lists kf (fuse_list kf list.weight scores 0 list.ids) lists

  unfoldable pub reciprocal_rank_fusion : List (RankList F) → ℕ → ℕ → Result (List (DocId × F))
  reciprocal_rank_fusion lists k limit = ranked (fuse_lists (f.from_nat k) [] lists) limit
