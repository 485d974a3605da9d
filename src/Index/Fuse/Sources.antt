-- ===== src/Index/Fuse/Sources.antt =====
-- Fusion returns documents of its lists, at most as many as asked for (src/index/fuse.rs).
use link_r.Prelude.{
  ℕ, ◌+◌, ◌≤◌, List, [], ◌∷◌, length, length-take, All, take-All, sort_by-All, nat_eq, arith, ◌≡◌,
  take,
}
use link_r.Prelude.HashMap.{HashMap, insert-All}
use link_r.Error.{ok}
use link_r.External.{Float, IsOrdered}
use link_r.Resource.{DocId}
use link_r.Index.Ranking.{add_score, precedes, sorted_hits}
use link_r.Index.Ranking.Top.{ranked_ok}
use link_r.Index.Fuse.{RankList, rrf_term, fuse_list, fuse_lists, reciprocal_rank_fusion}

module _ {F : Type 0} ⦃f : Float F⦄ (P : DocId → Type 0) where
  fuse_list-All :
      (kf weight : F) (scores : HashMap DocId F) (rank : ℕ) (ids : List DocId)
      → All P ids
      → All (λ e. P e.0) scores
      → All (λ e. P e.0) (fuse_list kf weight scores rank ids)
  unfolding fuse_list add_score
  fuse_list-All kf weight scores rank [] ps qs = qs
  fuse_list-All kf weight scores rank (id ∷ ids) (p, ps) qs =
      fuse_list-All kf weight (add_score scores id (rrf_term weight kf rank)) (rank + 1) ids ps
        (insert-All (λ e. P e.0) scores id _ p qs)

  fuse_lists-All :
      (kf : F) (scores : HashMap DocId F) (lists : List (RankList F))
      → All (λ l. All P l.ids) lists
      → All (λ e. P e.0) scores
      → All (λ e. P e.0) (fuse_lists kf scores lists)
  unfolding fuse_lists
  fuse_lists-All kf scores [] ps qs = qs
  fuse_lists-All kf scores (list ∷ lists) (p, ps) qs =
      fuse_lists-All kf (fuse_list kf list.weight scores 0 list.ids) lists ps
        (fuse_list-All kf list.weight scores 0 list.ids p qs)

  pub reciprocal_rank_fusion-All :
      IsOrdered F
      → (lists : List (RankList F)) (k limit : ℕ) → All (λ l. All P l.ids) lists
      → (out : List (DocId × F)) × (reciprocal_rank_fusion lists k limit ≡ ok out)
        × All (λ e. P e.0) out
        × (length out ≤ limit)
  unfolding reciprocal_rank_fusion
  reciprocal_rank_fusion-All o lists k limit ps =
      let scores = fuse_lists (f.from_nat k) [] lists in
      (
        take limit (sorted_hits scores),
        ranked_ok o scores limit,
        take-All (λ e. P e.0) limit (sorted_hits scores)
            (sort_by-All precedes (λ e. P e.0) scores
              (fuse_lists-All (f.from_nat k) [] lists ps tt)),
        omega (arith, length-take limit (sorted_hits scores)),
      )
