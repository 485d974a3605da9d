-- ===== src/Index/Graph/Related/Order.antt =====
-- The result of `Graph::related` (src/index/graph.rs).
use link_r.Prelude.{
  ℕ, ◌≤◌, ◌≡◌, inl, inr, false, List, [], ◌∷◌, All, length, take, ◌==◌, nat_eq, arith, Bool-cases,
  zero, suc,
}
use link_r.Prelude.HashMap
use link_r.Prelude.HashMap.{HashMap}
use link_r.Resource.{DocId}
use link_r.Index.Graph.Resolve.{Graph}
use link_r.Index.Graph.Related.{before, insert_ranked, rank, score_of, related}

-- Each entry scores at least as much as those behind it.
abbrev pub IsDescending : List (DocId × ℕ) → Type 0
IsDescending [] = Unit
IsDescending (a ∷ l) = All (λ b. b.1 ≤ a.1) l × IsDescending l

module _ (P : DocId × ℕ → Type 0) where
  insert_ranked-All :
      (a : DocId × ℕ) (l : List (DocId × ℕ)) → P a → All P l → All P (insert_ranked a l)
  unfolding insert_ranked
  insert_ranked-All a [] p ps = (p, tt)
  insert_ranked-All a (b ∷ l) p (q, ps) = elim (Bool-cases (before a b)) [
    | inl first ↦ rw (first, insert_ranked) (p, (q, ps))
    | inr later ↦ rw (later, insert_ranked) (q, insert_ranked-All a l p ps)
  ]

  rank-All : (l : List (DocId × ℕ)) → All P l → All P (rank l)
  unfolding rank
  rank-All [] ps = tt
  rank-All (a ∷ l) (p, ps) = insert_ranked-All a (rank l) p (rank-All l ps)

  take-All : (k : ℕ) (l : List (DocId × ℕ)) → All P l → All P (take k l)
  take-All zero l ps = tt
  take-All (suc k) [] ps = tt
  take-All (suc k) (a ∷ l) (p, ps) = (p, take-All k l ps)

All-weaken : (m n : ℕ) (l : List (DocId × ℕ)) → m ≤ n → All (λ b. b.1 ≤ m) l → All (λ b. b.1 ≤ n) l
All-weaken m n [] le ps = tt
All-weaken m n (b ∷ l) le (p, ps) = (omega arith, All-weaken m n l le ps)

insert_ranked-IsDescending :
    (a : DocId × ℕ) (l : List (DocId × ℕ)) → IsDescending l → IsDescending (insert_ranked a l)
unfolding insert_ranked
insert_ranked-IsDescending a [] d = (tt, tt)
insert_ranked-IsDescending a (b ∷ l) (below, d) = elim (Bool-cases (before a b)) [
  | inl first ↦
      let le : b.1 ≤ a.1 = ground arith in
      rw (first, insert_ranked) ((le, All-weaken b.1 a.1 l le below), (below, d))
  | inr later ↦
      let le : a.1 ≤ b.1 = ground arith in
      rw (later, insert_ranked)
        (insert_ranked-All (λ c. c.1 ≤ b.1) a l le below, insert_ranked-IsDescending a l d)
]

rank-IsDescending : (l : List (DocId × ℕ)) → IsDescending (rank l)
unfolding rank
rank-IsDescending [] = tt
rank-IsDescending (a ∷ l) = insert_ranked-IsDescending a (rank l) (rank-IsDescending l)

take-IsDescending : (k : ℕ) (l : List (DocId × ℕ)) → IsDescending l → IsDescending (take k l)
take-IsDescending zero l d = tt
take-IsDescending (suc k) [] d = tt
take-IsDescending (suc k) (a ∷ l) (below, d) =
    (take-All (λ b. b.1 ≤ a.1) k l below, take-IsDescending k l d)

length-take_le : (k : ℕ) (l : List (DocId × ℕ)) → length (take k l) ≤ k
length-take_le zero l = omega arith
length-take_le (suc k) [] = omega arith
length-take_le (suc k) (a ∷ l) = omega (arith, length-take_le k l)

removed-All :
    (doc : DocId) (m : HashMap DocId ℕ) → All (λ e. (e.0 == doc) ≡ false) (HashMap.remove m doc)
unfolding HashMap.remove
removed-All doc [] = tt
removed-All doc ((j, w) ∷ m) = elim (Bool-cases (j == doc)) [
  | inl own ↦ rw (own, HashMap.remove) (removed-All doc m)
  | inr other ↦ rw (other, HashMap.remove) (other, removed-All doc m)
]

-- `related` returns at most `k` documents, by descending score, and never the one asked for.
pub related-IsDescending :
    (self : Graph) (doc : DocId) (k : ℕ)
    → (length (related self doc k) ≤ k)
      × IsDescending (related self doc k)
      × All (λ e. (e.0 == doc) ≡ false) (related self doc k)
unfolding related score_of
related-IsDescending self doc k = elim (Bool-cases (k == 0)) [
  | inl none_asked ↦ rw (none_asked, related) (omega arith, tt, tt)
  | inr some_asked ↦
      rw (some_asked, related)
        (
          length-take_le k (rank (score_of self doc)),
          take-IsDescending k (rank (score_of self doc)) (rank-IsDescending (score_of self doc)),
          take-All (λ e. (e.0 == doc) ≡ false) k (rank (score_of self doc))
              (rank-All (λ e. (e.0 == doc) ≡ false) (score_of self doc) (removed-All doc _)),
        )
]
