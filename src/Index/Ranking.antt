-- ===== src/Index/Ranking.antt =====
-- The ranked lists that src/index/fuse.rs, dense.rs, sparse.rs and graph.rs sort: document ids with
-- scores, by `b.1.partial_cmp(&a.1).unwrap_or(Ordering::Equal).then(a.0.cmp(&b.0))`. Rust's sort may
-- panic where a NaN breaks the order; where it does not, it leaves an order that its documentation
-- does not specify, and the theorems ask for floats without a NaN.
pub mod Top
use link_r.Prelude.{
  ℕ, Bool, true, false, not, ◌&&◌, ◌||◌, Option, none, some, List, take, leb, sort_by, nat_eq,
  if◌then◌else◌,
}
use link_r.Prelude.HashMap
use link_r.Prelude.HashMap.{HashMap}
use link_r.Error.{Result, ok, panic, ◌>>=◌}
use link_r.External.{Float}
use link_r.Resource.{DocId}

module _ {F : Type 0} ⦃f : Float F⦄ where
  -- Whether the sort puts a document in front of another: `Less` or, on one id, `Equal`.
  unfoldable pub precedes : (DocId × F) → (DocId × F) → Bool
  precedes a b = f.gt a.1 b.1 || (not (f.gt b.1 a.1) && leb a.0 b.0)

  abbrev pub sorted_hits : List (DocId × F) → List (DocId × F)
  sorted_hits hits = sort_by precedes hits

  -- `hits.sort_by(...)`
  unfoldable pub sort_hits : List (DocId × F) → Result (List (DocId × F))
  sort_hits hits = if f.sort_panics hits then panic else ok (sorted_hits hits)

  abbrev pub or_zero : Option F → F
  or_zero none = f.zero
  or_zero (some s) = s

  -- `*scores.entry(id).or_insert(0.0) += s`
  unfoldable pub add_score : HashMap DocId F → DocId → F → HashMap DocId F
  add_score scores id s = HashMap.insert scores id (f.add (or_zero (HashMap.get scores id)) s)

  -- Sorted, then truncated.
  unfoldable pub ranked : HashMap DocId F → ℕ → Result (List (DocId × F))
  ranked scores limit = do hits ← sort_hits scores; ok (take limit hits)
