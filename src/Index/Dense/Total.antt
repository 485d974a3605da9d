-- ===== src/Index/Dense/Total.antt =====
-- `top_k` returns documents that it scans (src/index/dense.rs).
use link_r.Prelude.{
  ℕ, ◌+◌, ◌*◌, ◌/◌, ◌≤◌, ◌≡◌, refl, inl, inr, not, ◌||◌, Option, List, [], ◌∷◌, length, All,
  All-map, take-All, sort_by, sort_by-All, insert_by-All, ◌==◌, nat_eq, Bool-cases, Option-cases,
  last, ltb, arith, false,
}
use link_r.Error.{ok}
use link_r.External.{Float, IsOrdered, Bitmap}
use link_r.Metric.{Metric}
use link_r.Resource.{DocId}
use link_r.Index.Ranking.{precedes}
use link_r.Index.Ranking.Top.{sort_hits_ok}
use link_r.Index.Dense.TopK.{
  Scored, scored_le, consider_scored, consider_each, scanned, top_k, heap_bytes, isize_max,
}
use link_r.Index.Dense.Scan.{score_doc_total, scanned-All, row_fits}

module _ {F : Type 0} ⦃f : Float F⦄ (P : DocId → Type 0) where
  consider_scored-All :
      (k : ℕ) (heap : List (Scored F)) (x : Scored F)
      → P x.0
      → All (λ e. P e.0) heap
      → All (λ e. P e.0) (consider_scored k heap x)
  unfolding consider_scored
  consider_scored-All k heap x p ps = elim (Bool-cases (ltb (length heap) k)) [
    | inl room ↦ rw (room, consider_scored) (insert_by-All scored_le (λ e. P e.0) x heap p ps)
    | inr full ↦ elim (Option-cases (last heap)) [
      | inl empty ↦ rw (full, consider_scored, empty) ps
      | inr (top, e) ↦ elim (Bool-cases (f.gt x.1 top.1)) [
        | inl above ↦
            rw (full, consider_scored, e, above)
              (insert_by-All scored_le (λ e. P e.0) x _ p (take-All (λ e. P e.0) _ heap ps))
        | inr low ↦ rw (full, consider_scored, e, low) ps
      ]
    ]
  ]

  consider_each-All :
      (query dense : List F) (dim k : ℕ) (metric : Metric) (heap : List (Scored F))
      (ids : List DocId)
      → length query ≡ dim
      → All (λ id. id * dim + dim ≤ length dense) ids
      → All P ids
      → All (λ e. P e.0) heap
      → (out : List (Scored F)) × (consider_each query dense dim k metric heap ids ≡ ok out)
        × All (λ e. P e.0) out
  unfolding consider_each
  consider_each-All query dense dim k metric heap [] len rows ps qs = (heap, refl, qs)
  consider_each-All query dense dim k metric heap (id ∷ ids) len (row, rows) (p, ps) qs =
      let (s, e) = score_doc_total query dense dim metric id len row in
      let (out, ran, all) =
        consider_each-All query dense dim k metric (consider_scored k heap (id, s)) ids len rows ps
          (consider_scored-All k heap (id, s) p qs) in
      (out, rw e ran, all)

  -- Over floats without a NaN, for a query of the index's dimension and a heap that fits, `top_k`
  -- returns scanned documents, and does not panic.
  pub top_k-All :
      ⦃b : Bitmap⦄ (query dense : List F) (dim k : ℕ) (metric : Metric) (allowed : Option b.Set)
      → length query ≡ dim
      → IsOrdered F
      → (k + 1) * 8 ≤ isize_max
      → All P (scanned (length dense / dim) allowed)
      → (out : List (DocId × F)) × (top_k query dense dim k metric allowed ≡ ok out)
        × All (λ e. P e.0) out
  unfolding top_k heap_bytes
  top_k-All query dense dim k metric allowed len o room ps =
      elim (Bool-cases (k == 0 || (dim == 0 || not (length query == dim)))) [
        | inl off ↦ ([], rw (off, top_k) refl, tt)
        | inr on ↦
            let ids = scanned (length dense / dim) allowed in
            let rows =
              All-map _ _ (λ id h. row_fits id (length dense) dim h) ids (scanned-All _ allowed) in
            let fits : ltb isize_max (heap_bytes k) ≡ false = ground arith in
            let (heap, ran, all) =
              consider_each-All query dense dim k metric [] ids len rows ps tt in
            (
              sort_by precedes heap,
              rw (on, top_k, fits, ran) (sort_hits_ok o heap),
              sort_by-All precedes (λ e. P e.0) heap all,
            )
      ]
