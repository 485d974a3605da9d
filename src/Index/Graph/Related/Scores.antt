-- ===== src/Index/Graph/Related/Scores.antt =====
-- What `Graph::related` scores (src/index/graph.rs).
use link_r.Prelude.{
  ℕ, ◌+◌, ◌*◌, ◌%◌, ◌≡◌, ◌≢◌, false, List, [], ◌∷◌, u32_mod, if◌then◌else◌, ◌==◌, nat_eq, arith,
  nat_beq, nat_beq_iff, Bool-cases, inl, inr,
}
use link_r.Prelude.HashMap
use link_r.Prelude.HashMap.{HashMap}
use link_r.Prelude.HashSet.{count}
use link_r.Resource.{DocId}
use link_r.Index.Graph.Resolve.{Graph, out_neighbors, in_neighbors}
use link_r.Index.Graph.Related.{or_zero, bump, score_out, score_siblings, score_parents, score_of}

-- The connections of a document through its parents: how often `t` is a target of one of them.
abbrev pub co_cited : Graph → List DocId → ℕ → ℕ
co_cited self [] t = 0
co_cited self (parent ∷ parents) t = count t (out_neighbors self parent) + co_cited self parents t

abbrev value : HashMap DocId ℕ → ℕ → ℕ
value score t = or_zero (HashMap.get score t)

bump-value :
    (score : HashMap DocId ℕ) (id w t n : ℕ)
    → value score t ≡ n % u32_mod
    → value (bump score id w) t ≡ (n + (if nat_beq id t then w else 0)) % u32_mod
unfolding bump
bump-value score id w t n e =
    let at = HashMap.get-insert score id t ((or_zero (HashMap.get score id) + w) % u32_mod) in
    elim (Bool-cases (nat_beq id t)) [
      | inl same ↦ let id_t : id ≡ t = (nat_beq_iff id t).0 same in ground (arith, at, id_t)
      | inr other ↦ ground (arith, at)
    ]

score_out-value :
    (score : HashMap DocId ℕ) (targets : List DocId) (t n : ℕ)
    → value score t ≡ n % u32_mod
    → value (score_out score targets) t ≡ (n + 2 * count t targets) % u32_mod
unfolding score_out count
score_out-value score [] t n e = ground arith
score_out-value score (id ∷ targets) t n e = ground (
  arith,
  score_out-value (bump score id 2) targets t (n + (if nat_beq id t then 2 else 0))
      (bump-value score id 2 t n e),
)

score_siblings-value :
    (doc : DocId) (score : HashMap DocId ℕ) (siblings : List DocId) (t n : ℕ)
    → t ≢ doc
    → value score t ≡ n % u32_mod
    → value (score_siblings doc score siblings) t ≡ (n + count t siblings) % u32_mod
unfolding score_siblings count
score_siblings-value doc score [] t n ne e = ground arith
score_siblings-value doc score (s ∷ siblings) t n ne e = elim (Bool-cases (s == doc)) [
  | inl own ↦
      let other : nat_beq s t ≡ false = ground (arith, nat_beq_iff s doc) in
      rw (own, score_siblings)
        (ground (arith, other, score_siblings-value doc score siblings t n ne e))
  | inr other ↦
      rw (other, score_siblings)
        (ground (
          arith,
          score_siblings-value doc (bump score s 1) siblings t (n + (if nat_beq s t then 1 else 0))
              ne (bump-value score s 1 t n e),
        ))
]

score_parents-value :
    (self : Graph) (doc : DocId) (score : HashMap DocId ℕ) (parents : List DocId) (t n : ℕ)
    → t ≢ doc
    → value score t ≡ n % u32_mod
    → value (score_parents self doc score parents) t ≡ (n + co_cited self parents t) % u32_mod
unfolding score_parents
score_parents-value self doc score [] t n ne e = ground arith
score_parents-value self doc score (p ∷ parents) t n ne e = ground (
  arith,
  score_parents-value self doc (score_siblings doc score (out_neighbors self p)) parents t
      (n + count t (out_neighbors self p)) ne
      (score_siblings-value doc score (out_neighbors self p) t n ne e),
)

-- A document other than the one asked for scores two for each link to it from the one asked for and
-- one for each link to it from a parent of the one asked for, as a `u32`.
pub score_of-value :
    (self : Graph) (doc t : DocId)
    → t ≢ doc
    → or_zero (HashMap.get (score_of self doc) t)
      ≡ (2 * count t (out_neighbors self doc) + co_cited self (in_neighbors self doc) t) % u32_mod
unfolding score_of HashMap.get
score_of-value self doc t ne =
    let outs = out_neighbors self doc in
    let ins = in_neighbors self doc in
    let first = score_out-value [] outs t 0 (omega arith) in
    let all =
      score_parents-value self doc (score_out [] outs) ins t (0 + 2 * count t outs) ne first in
    ground (
      arith,
      all,
      HashMap.get-remove (score_parents self doc (score_out [] outs) ins) doc t,
      nat_beq_iff doc t,
    )
