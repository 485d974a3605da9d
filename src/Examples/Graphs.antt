-- ===== src/Examples/Graphs.antt =====
-- The ranking by connections at a concrete graph.
use link_r.Prelude.{
  ℕ, ◌+◌, ◌*◌, ◌%◌, ◌≤◌, ◌≡◌, ◌≢◌, false, [], ◌∷◌, All, length, u32_mod, ◌==◌, nat_eq, arith,
}
use link_r.Prelude.HashMap
use link_r.Prelude.HashSet.{count}
use link_r.Index.Graph.Resolve.{Graph, out_neighbors, in_neighbors}
use link_r.Index.Graph.Related.{or_zero, score_of, related}
use link_r.Index.Graph.Related.Scores.{co_cited, score_of-value}
use link_r.Index.Graph.Related.Order.{IsDescending, related-IsDescending}

-- Document 0 links to 1 and 2, and 1 to 2.
abbrev graph : Graph
graph = record { out = (1 ∷ 2 ∷ []) ∷ (2 ∷ []) ∷ [] ∷ []; inc = [] ∷ (0 ∷ []) ∷ (0 ∷ 1 ∷ []) ∷ [] }

other : ◌≢◌ {A = ℕ} 2 1
other e = ground arith

score_of-value_example :
    or_zero (HashMap.get (score_of graph 1) 2)
    ≡ (2 * count 2 (out_neighbors graph 1) + co_cited graph (in_neighbors graph 1) 2) % u32_mod
score_of-value_example = score_of-value graph 1 2 other

related-IsDescending_example :
    (length (related graph 1 5) ≤ 5)
    × IsDescending (related graph 1 5)
    × All (λ e. (e.0 == 1) ≡ false) (related graph 1 5)
related-IsDescending_example = related-IsDescending graph 1 5
