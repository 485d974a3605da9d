-- ===== src/Index/Graph/Boosted.antt =====
-- src/index/graph.rs: `Graph::boosted`, the one-hop boost of ranked hits.
use link_r.Prelude.{
  ℕ, ◌+◌, ◌||◌, inl, inr, none, some, List, [], ◌∷◌, ◌++◌, map, All, if◌then◌else◌, ltb, nat_eq,
  sort_by-All, Bool-cases, ◌≡◌, refl,
}
use link_r.Prelude.HashMap
use link_r.Prelude.HashMap.{HashMap}
use link_r.Error.{Result, ok}
use link_r.External.{Float, IsOrdered}
use link_r.Resource.{DocId}
use link_r.Index.Ranking.{precedes, sort_hits, sorted_hits}
use link_r.Index.Ranking.Top.{sort_hits_ok}
use link_r.Index.Graph.Resolve.{Graph, out_neighbors, in_neighbors, is_empty}

module _ {F : Type 0} ⦃f : Float F⦄ where
  -- `ranked.iter().copied().collect()`: of entries with one id the last stays.
  unfoldable pub collect_scores : HashMap DocId F → List (DocId × F) → HashMap DocId F
  collect_scores base [] = base
  collect_scores base ((id, s) ∷ ranked) = collect_scores (HashMap.insert base id s) ranked

  -- The loop over the neighbors: the sum of the scores of those that are candidates, and how many.
  unfoldable pub neighbor_sum : HashMap DocId F → F → ℕ → List DocId → F × ℕ
  neighbor_sum base sum count [] = (sum, count)
  neighbor_sum base sum count (nb ∷ neighbors) = elim (HashMap.get base nb) [
    | none ↦ neighbor_sum base sum count neighbors
    | some ns ↦ neighbor_sum base (f.add sum ns) (count + 1) neighbors
  ]

  unfoldable pub mean_boost : F → F × ℕ → F
  mean_boost weight (sum, count) =
      if ltb 0 count then f.mul weight (f.div sum (f.from_nat count)) else f.zero

  unfoldable pub boost_hit : Graph → F → HashMap DocId F → DocId × F → DocId × F
  boost_hit self weight base (id, s) = (
    id,
    f.add s (
        mean_boost weight
          (neighbor_sum base f.zero 0 (out_neighbors self id ++ in_neighbors self id))),
  )

  unfoldable pub boosted : Graph → List (DocId × F) → F → Result (List (DocId × F))
  boosted self ranked weight =
      if f.gt f.zero weight || f.eq weight f.zero || is_empty self
      then ok ranked
      else sort_hits (map (boost_hit self weight (collect_scores [] ranked)) ranked)

  -- Whatever holds of the candidates by id holds of the boosted ones.
  boost_hits-All :
      (P : DocId → Type 0) (self : Graph) (weight : F) (base : HashMap DocId F)
      (ranked : List (DocId × F))
      → All (λ e. P e.0) ranked
      → All (λ e. P e.0) (map (boost_hit self weight base) ranked)
  unfolding boost_hit
  boost_hits-All P self weight base [] ps = tt
  boost_hits-All P self weight base (e ∷ ranked) (p, ps) =
      (p, boost_hits-All P self weight base ranked ps)

  pub boosted-All :
      (P : DocId → Type 0) (self : Graph) (ranked : List (DocId × F)) (weight : F)
      → IsOrdered F
      → All (λ e. P e.0) ranked
      → (out : List (DocId × F)) × (boosted self ranked weight ≡ ok out) × All (λ e. P e.0) out
  unfolding boosted
  boosted-All P self ranked weight o ps =
      elim (Bool-cases (f.gt f.zero weight || f.eq weight f.zero || is_empty self)) [
        | inl off ↦ (ranked, rw (off, boosted) refl, ps)
        | inr on ↦
            let hits = map (boost_hit self weight (collect_scores [] ranked)) ranked in
            (
              sorted_hits hits,
              rw (on, boosted) (sort_hits_ok o hits),
              sort_by-All precedes (λ e. P e.0) hits (boost_hits-All P self weight _ ranked ps),
            )
      ]
