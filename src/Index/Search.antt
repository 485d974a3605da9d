-- ===== src/Index/Search.antt =====
-- src/index/mod.rs: `Index::search_prepared`, the hybrid search.
pub mod Sound
use link_r.Prelude.{
  ℕ, ◌*◌, Bool, true, false, Option, List, [], ◌∷◌, Bytes, length, take, map, min, max, u64_mod,
  ◌-◌, if◌then◌else◌, ◌==◌, nat_eq,
}
use link_r.Error.{Error, Result, ok, err, ◌>>=◌, dim_mismatch}
use link_r.External.{Float, FloatMap, Bitmap}
use link_r.Resource.{DocId}
use link_r.Query.{Fusion, rrf, PreparedQuery, Hits}
use link_r.Query
use link_r.Index.Meta.{Filter, evaluate}
use link_r.Index.Dense.TopK.{top_k}
use link_r.Index.Sparse.Score.{score}
use link_r.Index.Fuse.{RankList, weighted, reciprocal_rank_fusion}
use link_r.Index.Graph.Boosted.{boosted}
use link_r.Index.Store.{Index, dense}

-- `usize` has 64 bits.
unfoldable pub saturating_mul : ℕ → ℕ → ℕ
saturating_mul a b = min (a * b) (u64_mod - 1)

unfoldable pub candidates_of : ℕ → ℕ → ℕ
candidates_of limit multiplier = max (max (saturating_mul limit (max multiplier 1)) limit) 32

abbrev pub ids_of : {F : Type 0} → List (DocId × F) → List DocId
ids_of hits = map (λ e. e.0) hits

module _ {F : Type 0} ⦃f : Float F⦄ where
  -- `match query.rank.fusion`.
  unfoldable pub fuse : Fusion → List (RankList F) → ℕ → Result (List (DocId × F))
  fuse (rrf k) lists fuse_limit = reciprocal_rank_fusion lists k fuse_limit

  -- The fused list, and the boost when it is on.
  unfoldable pub rank_hits :
      {Set : Type 0}
      → Index F Set
      → PreparedQuery F
      → ℕ
      → List (DocId × F)
      → List (DocId × F)
      → Result (List (DocId × F))
  rank_hits self query candidates dense_hits sparse_hits =
      let boosting = f.gt query.rank.graph_boost f.zero in
      let fuse_limit = if boosting then candidates else query.limit in
      let lists =
        weighted (ids_of dense_hits) query.rank.dense_weight
        ∷ weighted (ids_of sparse_hits) query.rank.sparse_weight
        ∷ [] in
      fuse query.rank.fusion lists fuse_limit >>= λ ranked.
      (if boosting
        then (do
          hits ← boosted self.graph ranked query.rank.graph_boost
          ok (take query.limit hits))
        else ok ranked)

module _ {F : Type 0} ⦃f : Float F⦄ ⦃fm : FloatMap F⦄ ⦃s : Bitmap⦄ where
  -- The search of an index that is not empty, with the evaluated filter.
  unfoldable pub search_allowed : Index F s.Set → PreparedQuery F → Option s.Set → Result (Hits F)
  search_allowed self query allowed = do
    let candidates = candidates_of query.limit query.rank.candidate_multiplier
    dense_blob ← dense self
    dense_hits ← top_k query.vector dense_blob self.dim candidates self.metric allowed
    sparse_hits ← score self.bm25 query.terms allowed candidates
    ranked ← rank_hits self query candidates dense_hits sparse_hits
    ok (Query.new self.meta ranked)

  unfoldable pub search_prepared : Index F s.Set → PreparedQuery F → Result (Hits F)
  search_prepared self query =
      if length query.vector == self.dim
      then if length self.meta == 0
        then ok (Query.new self.meta [])
        else search_allowed self query (evaluate query.filter self.meta)
      else err (dim_mismatch self.dim (length query.vector))
