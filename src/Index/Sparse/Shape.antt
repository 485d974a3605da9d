-- ===== src/Index/Sparse/Shape.antt =====
-- The maps that `build` accumulates have one entry for a key, and name documents in range
-- (src/index/sparse.rs).
use link_r.Prelude.{
  ℕ, ◌+◌, ◌%◌, ◌<◌, ◌≤◌, ◌≡◌, inl, inr, Bool, some, List, [], ◌∷◌, Bytes, length, ◌==◌, nat_eq,
  bytes_eq, u32_mod, All, Bool-cases, arith,
}
use link_r.Prelude.HashMap
use link_r.Prelude.HashMap.{HashMap, IsMap, insert-IsMap, insert-All}
use link_r.Resource.{DocId}
use link_r.Index.Sparse.{
  local_counts, Counts, or_empty, merge_counts, accumulate_loop, accumulate_sequential, accumulate,
}
use link_r.Index.Sparse.Counts.{accumulate_parallel-eq}

-- The frequencies of one term.
pub record IsTermMap (n : ℕ) (m : HashMap DocId ℕ) : Type 0 where
  pub unique : IsMap m
  pub ids : All (λ e. e.0 < n) m

-- All frequencies.
pub record IsCounts (n : ℕ) (acc : Counts) : Type 0 where
  pub unique : IsMap acc
  pub values : All (λ e. IsTermMap n e.1) acc

value_at :
    (n : ℕ) (acc : Counts) (t : Bytes)
    → All (λ e. IsTermMap n e.1) acc
    → IsTermMap n (or_empty (HashMap.get acc t))
unfolding HashMap.get
value_at n [] t ps = record { unique = tt; ids = tt }
value_at n ((j, w) ∷ acc) t (p, ps) = elim (Bool-cases (j == t)) [
  | inl same ↦ rw (same, HashMap.get) p
  | inr other ↦ rw (other, HashMap.get) (value_at n acc t ps)
]

-- The frequencies of a term that the map holds.
pub value_of :
    (n : ℕ) (acc : Counts) (t : Bytes) {m : HashMap DocId ℕ}
    → IsCounts n acc
    → HashMap.get acc t ≡ some m
    → IsTermMap n m
value_of n acc t c e = rw e at (value_at n acc t c.values)

merge_counts-IsCounts :
    (n : ℕ) (acc : Counts) (doc : DocId) (counts : HashMap Bytes ℕ)
    → doc < n
    → IsCounts n acc
    → IsCounts n (merge_counts acc doc counts)
unfolding merge_counts
merge_counts-IsCounts n acc doc [] inside c = c
merge_counts-IsCounts n acc doc ((term, f) ∷ counts) inside c =
    let old = value_at n acc term c.values in
    let m = HashMap.insert (or_empty (HashMap.get acc term)) doc f in
    merge_counts-IsCounts n (HashMap.insert acc term m) doc counts inside (record {
      unique = insert-IsMap acc term m c.unique;
      values =
          insert-All (λ e. IsTermMap n e.1) acc term m
            (record {
              unique = insert-IsMap (or_empty (HashMap.get acc term)) doc f old.unique;
              ids =
                  insert-All (λ e. e.0 < n) (or_empty (HashMap.get acc term)) doc f inside old.ids;
            })
            c.values;
    })

accumulate_loop-IsCounts :
    (n : ℕ) (acc : Counts) (i : ℕ) (docs : List (List Bytes))
    → i + length docs ≤ n
    → n ≤ u32_mod
    → IsCounts n acc
    → IsCounts n (accumulate_loop acc i docs)
unfolding accumulate_loop
accumulate_loop-IsCounts n acc i [] inside fits c = c
accumulate_loop-IsCounts n acc i (terms ∷ docs) inside fits c =
    accumulate_loop-IsCounts n (merge_counts acc (i % u32_mod) (local_counts terms)) (i + 1) docs
      (omega arith) fits
      (merge_counts-IsCounts n acc (i % u32_mod) (local_counts terms) (omega arith) c)

pub accumulate-IsCounts :
    (parallel : Bool) (docs : List (List Bytes))
    → length docs ≤ u32_mod
    → IsCounts (length docs) (accumulate parallel docs)
unfolding accumulate_sequential
accumulate-IsCounts parallel docs fits = rw (accumulate_parallel-eq parallel docs) (
    accumulate_loop-IsCounts (length docs) [] 0 docs (omega arith) fits
      (record { unique = tt; values = tt }))
