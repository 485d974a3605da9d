-- ===== src/Index/Dense/Scan.antt =====
-- The whole scan of `top_k` (src/index/dense.rs).
use mathlib.Core.List.{Perm}
use mathlib.Core.List.Perm
use link_r.Prelude.{
  ℕ, zero, suc, ◌+◌, ◌*◌, ◌/◌, ◌%◌, ◌<◌, ◌≤◌, ◌≡◌, refl, subst, inl, inr, true, false, Option, none,
  some, List, [], ◌∷◌, ◌++◌, take, drop, length, slice, All, All-map, All-zip, leb, ltb, ltb→lt,
  ◌==◌, nat_eq, u32_mod, sort_by, iota, IsAscending, iota-IsAscending, Bool-cases, arith, IsTop,
  take-sort_by-IsTop, take-length, append-nil, not, ◌||◌, sort_by-IsSortedBy, length-take,
  length-drop,
}
use native.Mathlib.Nat.{div-mul-le_self, suc-mul, mul-le-mul_right}
use link_r.Error.{Result, ok, ◌>>=◌}
use link_r.External.{Float, IsOrdered, Bitmap}
use link_r.Metric.{Metric, cosine, dot, l2}
use link_r.Resource.{DocId}
use link_r.Index.Dense.{similarity, dot_loop, l2_loop}
use link_r.Index.Ranking.{precedes, sorted_hits}
use link_r.Index.Ranking.Top.{precedes-IsOrder, sort_hits_ok}
use link_r.Index.Dense.TopK.{
  Scored, score_doc, consider_each, in_range, scanned, top_k, heap_bytes, isize_max,
}
use link_r.Index.Dense.Exact.{consider_scored-IsTop}

module _ {F : Type 0} ⦃f : Float F⦄ where
  dot_loop_total :
      (acc : F) (a b : List F) → length a ≡ length b → (s : F) × (dot_loop acc a b ≡ ok s)
  unfolding dot_loop
  dot_loop_total acc [] b h = (acc, refl)
  dot_loop_total acc (x ∷ a) [] h = absurd (omega arith)
  dot_loop_total acc (x ∷ a) (y ∷ b) h = dot_loop_total (f.add acc (f.mul x y)) a b (omega arith)

  l2_loop_total :
      (acc : F) (a b : List F) → length a ≡ length b → (s : F) × (l2_loop acc a b ≡ ok s)
  unfolding l2_loop
  l2_loop_total acc [] b h = (f.neg acc, refl)
  l2_loop_total acc (x ∷ a) [] h = absurd (omega arith)
  l2_loop_total acc (x ∷ a) (y ∷ b) h =
      l2_loop_total (f.add acc (f.mul (f.sub x y) (f.sub x y))) a b (omega arith)

  similarity_total :
      (query doc : List F) (metric : Metric)
      → length query ≡ length doc
      → (s : F) × (similarity query doc metric ≡ ok s)
  unfolding similarity
  similarity_total query doc cosine h = dot_loop_total f.zero query doc h
  similarity_total query doc dot h = dot_loop_total f.zero query doc h
  similarity_total query doc l2 h = l2_loop_total f.zero query doc h

  pub score_doc_total :
      (query dense : List F) (dim : ℕ) (metric : Metric) (id : DocId)
      → length query ≡ dim
      → id * dim + dim ≤ length dense
      → (s : F) × (score_doc query dense dim metric id ≡ ok (id, s))
  unfolding score_doc
  score_doc_total query dense dim metric id len inside =
      let row : length query ≡ length (slice (id * dim) dim dense) =
        omega (arith, length-take dim (drop (id * dim) dense), length-drop (id * dim) dense) in
      let (s, e) = similarity_total query (slice (id * dim) dim dense) metric row in
      let whole : leb (id * dim + dim) (length dense) ≡ true = ground arith in
      (s, rw (whole, e) refl)

  -- The documents with their scores, in the order of the scan.
  pub scores_of : List F → List F → ℕ → Metric → List DocId → Result (List (Scored F))
  scores_of query dense dim metric [] = ok []
  scores_of query dense dim metric (id ∷ ids) = do
    s ← score_doc query dense dim metric id
    rest ← scores_of query dense dim metric ids
    ok (s ∷ rest)

  rev_onto : List (Scored F) → List (Scored F) → List (Scored F)
  rev_onto [] seen = seen
  rev_onto (s ∷ hits) seen = rev_onto hits (s ∷ seen)

  consider_each_lem :
      (o : IsOrdered F) (query dense : List F) (dim k : ℕ) (metric : Metric)
      (seen : List (Scored F)) (ids : List DocId)
      → length query ≡ dim
      → 0 < k
      → All (λ id. id * dim + dim ≤ length dense) ids
      → IsAscending ids
      → All (λ id. All (λ b. b.0 < id) seen) ids
      → (hits : List (Scored F)) × (scores_of query dense dim metric ids ≡ ok hits)
        × (consider_each query dense dim k metric (take k (sorted_hits seen)) ids
            ≡ ok (take k (sorted_hits (rev_onto hits seen))))
  unfolding consider_each scores_of rev_onto
  consider_each_lem o query dense dim k metric seen [] len pos inside asc older = ([], refl, refl)
  consider_each_lem o query dense dim k metric seen (id ∷ ids) len pos (fits, inside) (later, asc)
        (old, older) =
      let (s, e) = score_doc_total query dense dim metric id len fits in
      let (hits, scores, run) =
        consider_each_lem o query dense dim k metric ((id, s) ∷ seen) ids len pos inside asc
          (All-zip _ _ ids later older) in
      (
        (id, s) ∷ hits,
        rw (e, scores) refl,
        rw (e, consider_scored-IsTop o k seen (id, s) pos old) run,
      )

  perm_middle : (s : Scored F) (l r : List (Scored F)) → Perm (l ++ s ∷ r) (s ∷ (l ++ r))
  perm_middle s [] r = Perm.refl (s ∷ r)
  perm_middle s (x ∷ l) r = Perm.trans (Perm.cons x (perm_middle s l r)) (Perm.swap s x (l ++ r))

  rev_onto-Perm : (hits seen : List (Scored F)) → Perm (rev_onto hits seen) (hits ++ seen)
  unfolding rev_onto
  rev_onto-Perm [] seen = Perm.refl seen
  rev_onto-Perm (s ∷ hits) seen =
      Perm.trans (rev_onto-Perm hits (s ∷ seen)) (perm_middle s hits seen)

  length-rev_onto :
      (hits seen : List (Scored F)) → length (rev_onto hits seen) ≡ length hits + length seen
  unfolding rev_onto
  length-rev_onto [] seen = omega arith
  length-rev_onto (s ∷ hits) seen = omega (arith, length-rev_onto hits (s ∷ seen))

pub row_fits : (id n dim : ℕ) → id < n / dim → id * dim + dim ≤ n
row_fits id n dim h =
    let whole = div-mul-le_self n dim in
    let less = mul-le-mul_right {m = suc id} {n = n / dim} dim (omega arith) in
    omega (arith, whole, less, suc-mul id dim)

in_range-All :
    (doc_count : ℕ) (ids : List DocId) → All (λ id. id < doc_count) (in_range doc_count ids)
unfolding in_range
in_range-All doc_count [] = tt
in_range-All doc_count (id ∷ ids) = elim (Bool-cases (ltb id doc_count)) [
  | inl inside ↦ rw (inside, in_range) (ltb→lt id doc_count inside, in_range-All doc_count ids)
  | inr outside ↦ rw (outside, in_range) (in_range-All doc_count ids)
]

pub in_range_keeps :
    (P : DocId → Type 0) (doc_count : ℕ) (ids : List DocId)
    → All P ids
    → All P (in_range doc_count ids)
unfolding in_range
in_range_keeps P doc_count [] ps = tt
in_range_keeps P doc_count (id ∷ ids) (p, ps) = elim (Bool-cases (ltb id doc_count)) [
  | inl inside ↦ rw (inside, in_range) (p, in_range_keeps P doc_count ids ps)
  | inr outside ↦ rw (outside, in_range) (in_range_keeps P doc_count ids ps)
]

in_range-IsAscending :
    (doc_count : ℕ) (ids : List DocId) → IsAscending ids → IsAscending (in_range doc_count ids)
unfolding in_range
in_range-IsAscending doc_count [] s = tt
in_range-IsAscending doc_count (id ∷ ids) (later, s) = elim (Bool-cases (ltb id doc_count)) [
  | inl inside ↦
      rw (inside, in_range)
        (in_range_keeps _ doc_count ids later, in_range-IsAscending doc_count ids s)
  | inr outside ↦ rw (outside, in_range) (in_range-IsAscending doc_count ids s)
]

iota_below : (start n m : ℕ) → start + n ≤ m → All (λ id. id < m) (iota start n)
unfolding iota
iota_below start zero m h = tt
iota_below start (suc n) m h = (omega arith, iota_below (suc start) n m (omega arith))

module _ ⦃b : Bitmap⦄ where
  pub scanned-All :
      (doc_count : ℕ) (allowed : Option b.Set)
      → All (λ id. id < doc_count) (scanned doc_count allowed)
  unfolding scanned
  scanned-All doc_count none = iota_below 0 (doc_count % u32_mod) doc_count (omega arith)
  scanned-All doc_count (some allowed) = in_range-All doc_count (b.iter allowed)

  scanned-IsAscending :
      (doc_count : ℕ) (allowed : Option b.Set) → IsAscending (scanned doc_count allowed)
  unfolding scanned
  scanned-IsAscending doc_count none = iota-IsAscending 0 (doc_count % u32_mod)
  scanned-IsAscending doc_count (some allowed) =
      in_range-IsAscending doc_count (b.iter allowed) (b.iter-IsAscending allowed)

module _ {F : Type 0} ⦃f : Float F⦄ ⦃b : Bitmap⦄ where
  -- Over floats without a NaN, for a query of the index's dimension that is not 0, and for a k that
  -- is not 0 and whose heap of k + 1 entries has at most isize::MAX bytes, `top_k` does not panic and
  -- returns the first `k` by score and id of the documents that it scans, each with its similarity.
  pub top_k-IsTop :
      (query dense : List F) (dim k : ℕ) (metric : Metric) (allowed : Option b.Set)
      → IsOrdered F
      → length query ≡ dim
      → 0 < dim
      → 0 < k
      → (k + 1) * 8 ≤ isize_max
      → (hits out : List (DocId × F)) × (scores_of query dense dim metric
            (scanned (length dense / dim) allowed)
          ≡ ok hits)
        × (top_k query dense dim k metric allowed ≡ ok out)
        × IsTop precedes k hits out
  unfolding top_k sort_by heap_bytes
  top_k-IsTop query dense dim k metric allowed o len dim_pos k_pos room =
      let ids = scanned (length dense / dim) allowed in
      let rows =
        All-map _ _ (λ id h. row_fits id (length dense) dim h) ids (scanned-All _ allowed) in
      let (hits, scores, run) =
        consider_each_lem o query dense dim k metric [] ids len k_pos rows
          (scanned-IsAscending _ allowed) (All-map _ _ (λ id h. tt) ids rows) in
      let top = take-sort_by-IsTop precedes k (rev_onto hits []) (precedes-IsOrder o) in
      let asked : (k == 0 || (dim == 0 || not (length query == dim))) ≡ false = ground arith in
      let none_seen : take k (sorted_hits {F = F} []) ≡ [] = take-length k [] (omega arith) in
      let start : consider_each query dense dim k metric [] ids
          ≡ ok (take k (sorted_hits (rev_onto hits []))) =
        subst
          (λ heap.
            consider_each query dense dim k metric heap ids
            ≡ ok (take k (sorted_hits (rev_onto hits []))))
          none_seen run in
      let fits : ltb isize_max (heap_bytes k) ≡ false = ground arith in
      let sorted =
        sort_by-IsSortedBy precedes (take k (sorted_hits (rev_onto hits []))) top.sorted in
      (
        hits,
        take k (sorted_hits (rev_onto hits [])),
        scores,
        rw (asked, fits, start, sort_hits_ok o (take k (sorted_hits (rev_onto hits []))), sorted)
            refl,
        record {
          size = omega (arith, top.size, length-rev_onto hits []);
          sorted = top.sorted;
          rest = top.rest;
          whole = Perm.trans top.whole (rw (append-nil hits) at (rev_onto-Perm hits []));
          behind = top.behind;
        },
      )
