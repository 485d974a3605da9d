-- ===== src/Index/Search/Sound.antt =====
-- What a hybrid search returns on a consistent index (src/index/mod.rs).
use link_r.Prelude.{
  ℕ, zero, suc, take, ◌+◌, ◌*◌, ◌/◌, ◌<◌, ◌≤◌, ◌≡◌, refl, sym, ap, subst, inl, inr, true, false,
  Option, none, some, List, [], ◌∷◌, length, get_elem?, get_elem?_total, u32_mod, All, All-map,
  All-zip, take-All, All_of, ◌%◌, ◌==◌, nat_eq, nat_beq_iff, Bool-cases, arith, length-take, iota,
  any,
}
use native.Mathlib.Nat.{div-zero, mul-div_left}
use link_r.Error.{ok}
use link_r.External.{Float, IsOrdered, FloatMap, Bitmap}
use link_r.Resource.{DocId}
use link_r.Query.{Fusion, rrf, PreparedQuery, Hits, Hit, iter, iter_from, hit_of}
use link_r.Query
use link_r.Index.Meta.{DocMeta, Filter, evaluate, matches, is_all}
use link_r.Index.Meta.Filters.{matches_at, evaluate-contains}
use link_r.Index.Dense.TopK.{scanned, isize_max}
use link_r.Index.Dense.Scan.{scanned-All, in_range_keeps}
use link_r.Index.Dense.Total.{top_k-All}
use link_r.Index.Sparse.Score.{score, is_excluded}
use link_r.Index.Sparse.Bounded.{score-IsAllowed}
use link_r.Index.Fuse.{RankList, weighted}
use link_r.Index.Fuse.Sources.{reciprocal_rank_fusion-All}
use link_r.Index.Graph.Boosted.{boosted-All}
use link_r.Index.Store.{Index}
use link_r.Index.Store.Consistent.{IsConsistent}
use link_r.Index.Search.{ids_of, fuse, rank_hits, candidates_of, search_allowed, search_prepared}

module _ {F : Type 0} ⦃f : Float F⦄ (o : IsOrdered F) (P : DocId → Type 0) where
  ids_of-All : (hits : List (DocId × F)) → All (λ e. P e.0) hits → All P (ids_of hits)
  ids_of-All [] ps = tt
  ids_of-All (e ∷ hits) (p, ps) = (p, ids_of-All hits ps)

  fuse-All :
      (fusion : Fusion) (lists : List (RankList F)) (limit : ℕ)
      → All (λ l. All P l.ids) lists
      → (out : List (DocId × F)) × (fuse fusion lists limit ≡ ok out)
        × All (λ e. P e.0) out
        × (length out ≤ limit)
  unfolding fuse
  fuse-All (rrf k) lists limit ps = reciprocal_rank_fusion-All P o lists k limit ps

  -- The ranked hits come from the two lists, and are at most the limit.
  rank_hits-All :
      {Set : Type 0} (x : Index F Set) (query : PreparedQuery F) (candidates : ℕ)
      (dense_hits sparse_hits : List (DocId × F))
      → All (λ e. P e.0) dense_hits
      → All (λ e. P e.0) sparse_hits
      → (out : List (DocId × F)) × (rank_hits x query candidates dense_hits sparse_hits ≡ ok out)
        × All (λ e. P e.0) out
        × (length out ≤ query.limit)
  unfolding rank_hits
  rank_hits-All x query candidates dense_hits sparse_hits ps qs =
      let lists : List (RankList F) =
        weighted (ids_of dense_hits) query.rank.dense_weight
        ∷ weighted (ids_of sparse_hits) query.rank.sparse_weight
        ∷ [] in
      let sources : All (λ l. All P l.ids) lists =
        (ids_of-All dense_hits ps, (ids_of-All sparse_hits qs, tt)) in
      elim (Bool-cases (f.gt query.rank.graph_boost f.zero)) [
        | inl boosting ↦
            let (ranked, ran, all, _) = fuse-All query.rank.fusion lists candidates sources in
            let (hits, lifted, lifted_all) =
              boosted-All P x.graph ranked query.rank.graph_boost o all in
            (
              take query.limit hits,
              rw (boosting, rank_hits, ran, lifted) refl,
              take-All (λ e. P e.0) query.limit hits lifted_all,
              omega (arith, length-take query.limit hits),
            )
        | inr plain ↦
            let (ranked, ran, all, within) = fuse-All query.rank.fusion lists query.limit sources in
            (ranked, rw (plain, rank_hits, ran) refl, all, within)
      ]

-- The heap of the dense arm has at most isize::MAX bytes.
abbrev pub HeapFits : {F : Type 0} → PreparedQuery F → Type 0
HeapFits query = (candidates_of query.limit query.rank.candidate_multiplier + 1) * 8 ≤ isize_max

-- The document with an id, which the filter passes.
pub record IsMatch (filter : Filter) (docs : List DocMeta) (d : DocId) : Type 0 where
  pub doc : DocMeta
  pub at : get_elem? docs d ≡ some doc
  pub passes : matches filter doc ≡ true

-- A hit: a document of the index that the filter passes.
abbrev pub IsHit : Filter → List DocMeta → DocMeta → Type 0
IsHit filter docs doc = ((d : DocId) × (get_elem? docs d ≡ some doc)) × (matches filter doc ≡ true)

all_matches : (filter : Filter) (doc : DocMeta) → is_all filter ≡ true → matches filter doc ≡ true
unfolding is_all matches
all_matches Filter.all doc h = refl
all_matches (Filter.tag t) doc h = absurd (ground arith)
all_matches (Filter.lang l) doc h = absurd (ground arith)
all_matches (Filter.path_prefix p) doc h = absurd (ground arith)
all_matches (Filter.kind k) doc h = absurd (ground arith)
all_matches (Filter.fetched_before t) doc h = absurd (ground arith)
all_matches (Filter.fetched_after t) doc h = absurd (ground arith)
all_matches (Filter.and a b) doc h = absurd (ground arith)
all_matches (Filter.or a b) doc h = absurd (ground arith)
all_matches (Filter.not a) doc h = absurd (ground arith)

any_self :
    (P : DocId → Type 0) (l : List DocId)
    → ((i : DocId) → any (λ j. j == i) l ≡ true → P i)
    → All P l
any_self P [] q = tt
any_self P (i ∷ l) q =
    (q i (ground (arith, nat_beq_iff i i)), any_self P l (λ j h. q j (ground arith)))

div_le : (m d : ℕ) → m * d / d ≤ m
div_le m zero = rw div-zero (omega arith)
div_le m (suc d) = let whole = mul-div_left m {n = suc d} (omega arith) in omega (arith, whole)

matches_at-get_elem? :
    (filter : Filter) (docs : List DocMeta) (i : ℕ) {doc : DocMeta}
    → get_elem? docs i ≡ some doc
    → matches_at filter docs i ≡ matches filter doc
matches_at-get_elem? filter [] i h = absurd (ground arith)
matches_at-get_elem? filter (d ∷ docs) zero {doc} h =
    let same : d ≡ doc = ground arith in ap (matches filter) same
matches_at-get_elem? filter (d ∷ docs) (suc i) h = matches_at-get_elem? filter docs i h

module _ ⦃s : Bitmap⦄ where
  allowed-IsMatch :
      (filter : Filter) (docs : List DocMeta) (d : DocId)
      → length docs ≤ u32_mod
      → d < length docs
      → is_excluded (evaluate filter docs) d ≡ false
      → IsMatch filter docs d
  unfolding is_excluded evaluate
  allowed-IsMatch filter docs d fits inside kept =
      let (doc, at) = get_elem?_total docs d inside in
      elim (Bool-cases (is_all filter)) [
        | inl whole ↦ record { doc = doc; at = at; passes = all_matches filter doc whole }
        | inr restricts ↦
            let (allowed, e, same) = evaluate-contains filter docs d fits restricts in
            let held : is_excluded (some allowed) d ≡ false =
              subst (λ a. is_excluded a d ≡ false) e kept in
            let here = matches_at-get_elem? filter docs d {doc = doc} at in
            record { doc = doc; at = at; passes = ground (arith, held, same, here) }
      ]

  scanned_kept :
      (doc_count : ℕ) (allowed : Option s.Set)
      → All (λ d. is_excluded allowed d ≡ false) (scanned doc_count allowed)
  unfolding is_excluded scanned
  scanned_kept doc_count none = All_of _ (iota 0 (doc_count % u32_mod)) (λ d. refl)
  scanned_kept doc_count (some allowed) =
      in_range_keeps _ doc_count (s.iter allowed)
        (any_self _ (s.iter allowed) (λ i h. ground (arith, s.contains-iter allowed i)))

module _ {F : Type 0} where
  iter_from-IsMatch :
      (filter : Filter) (docs : List DocMeta) (ranked : List (DocId × F))
      → All (λ e. IsMatch filter docs e.0) ranked
      → (found : List (Hit F)) × (iter_from docs ranked ≡ ok found)
        × (length found ≡ length ranked)
        × All (λ h. IsHit filter docs h.doc) found
  unfolding iter_from hit_of
  iter_from-IsMatch filter docs [] ps = ([], refl, refl, tt)
  iter_from-IsMatch filter docs ((d, score) ∷ ranked) (p, ps) =
      let (found, ran, len, all) = iter_from-IsMatch filter docs ranked ps in
      (hit_of score p.doc ∷ found, rw (p.at, ran) refl, ap suc len, (((d, p.at), p.passes), all))

module _ {F : Type 0} ⦃f : Float F⦄ ⦃fm : FloatMap F⦄ ⦃s : Bitmap⦄ where
  -- The two arms of a search return documents that the filter passes, and so does their fusion.
  search_allowed-IsMatch :
      (x : Index F s.Set) (query : PreparedQuery F)
      → IsConsistent x
      → IsOrdered F
      → length query.vector ≡ x.dim
      → HeapFits query
      → (ranked : List (DocId × F)) × (search_allowed x query (evaluate query.filter x.meta)
          ≡ ok (Query.new x.meta ranked))
        × All (λ e. IsMatch query.filter x.meta e.0) ranked
        × (length ranked ≤ query.limit)
  unfolding search_allowed
  search_allowed-IsMatch x query c o len room =
      let (blob, mapped, rows) = c.rows in
      let allowed = evaluate query.filter x.meta in
      let k = candidates_of query.limit query.rank.candidate_multiplier in
      let P : DocId → Type 0 = IsMatch query.filter x.meta in
      let count : length blob / x.dim ≤ length x.meta =
        subst (λ n. n / x.dim ≤ length x.meta) (sym rows) (div_le (length x.meta) x.dim) in
      let scanned_P : All P (scanned (length blob / x.dim) allowed) =
        All-map _ P
          (λ d h. allowed-IsMatch query.filter x.meta d c.fits (omega (arith, h.0, count)) h.1) _
          (All-zip _ _ _ (scanned-All _ allowed) (scanned_kept _ allowed)) in
      let (dense_hits, dense_ran, dense_P) =
        top_k-All P query.vector blob x.dim k x.metric allowed len o room scanned_P in
      let (sparse_hits, sparse_ran, sparse_len, sparse_allowed) =
        score-IsAllowed x.bm25 allowed query.terms k c.postings o in
      let sparse_P : All (λ e. P e.0) sparse_hits =
        All-map _ (λ e. P e.0)
          (λ e h.
            allowed-IsMatch query.filter x.meta e.0 c.fits (omega (arith, h.0, c.lengths)) h.1)
          _ sparse_allowed in
      let (out, ranked, all, within) =
        rank_hits-All o P x query k dense_hits sparse_hits dense_P sparse_P in
      (out, rw (mapped, dense_ran, sparse_ran, ranked) refl, all, within)

  -- Over floats without a NaN, on a consistent index, for a vector of its dimension and so many
  -- candidates that the heap has at most isize::MAX bytes, a search does not fail or panic. It returns
  -- at most `limit` hits, and each is a document of the index that the filter passes.
  pub search_prepared-matches :
      (x : Index F s.Set) (query : PreparedQuery F)
      → IsConsistent x
      → IsOrdered F
      → length query.vector ≡ x.dim
      → HeapFits query
      → (hits : Hits F) × (found : List (Hit F)) × (search_prepared x query ≡ ok hits)
        × (iter hits ≡ ok found)
        × (length found ≤ query.limit)
        × All (λ h. IsHit query.filter x.meta h.doc) found
  unfolding search_prepared iter Query.new iter_from
  search_prepared-matches x query c o len room = elim (Bool-cases (length x.meta == 0)) [
    | inl empty ↦
        let dims : (length query.vector == x.dim) ≡ true = (nat_beq_iff _ _).1 len in
        (Query.new x.meta [], [], rw (dims, search_prepared, empty) refl, refl, omega arith, tt)
    | inr some_docs ↦
        let dims : (length query.vector == x.dim) ≡ true = (nat_beq_iff _ _).1 len in
        let (ranked, ran, all, within) = search_allowed-IsMatch x query c o len room in
        let (found, iterated, count, passing) = iter_from-IsMatch query.filter x.meta ranked all in
        (
          Query.new x.meta ranked,
          found,
          rw (dims, search_prepared, some_docs) ran,
          iterated,
          omega (arith, count, within),
          passing,
        )
  ]
