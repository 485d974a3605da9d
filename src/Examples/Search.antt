-- ===== src/Examples/Search.antt =====
-- Ranking and search at a concrete index of two documents.
use link_r.Prelude.{
  ℕ, ◌+◌, ◌/◌, ◌<◌, ◌≤◌, ◌≡◌, refl, true, false, none, some, Option, List, [], ◌∷◌, Bytes, codes,
  arith, length, u32_mod, min, IsTop, All, bytes_eq, nat_eq, occurrences, Bool, get_elem?,
}
use link_r.Prelude.HashMap
use link_r.Prelude.HashMap.{HashMap, IsMap}
use link_r.Error.{ok}
use link_r.External.{FloatMap}
use link_r.Resource.{DocId}
use link_r.Metric.{dot}
use link_r.Query.{PreparedQuery, Hits, Hit, rrf, iter}
use link_r.Index.Meta.{Filter}
use link_r.Index.Ranking.{precedes}
use link_r.Index.Dense.TopK.{scanned, top_k}
use link_r.Index.Dense.Scan.{scores_of, top_k-IsTop}
use link_r.Index.Fuse.{RankList, reciprocal_rank_fusion}
use link_r.Index.Fuse.Scores.{contributions, total, fused, reciprocal_rank_fusion-IsTop}
use link_r.Index.Sparse.{Bm25, build, to_doc_terms, u16_max}
use link_r.Index.Sparse.{accumulate}
use link_r.Index.Sparse.Bounded.{InRange}
use link_r.Index.Sparse.Counts.{terms_at, tf_in, accumulate-tf}
use link_r.Index.Sparse.Rebuild.{to_doc_terms-build}
use link_r.Index.Store.{Index, owned}
use link_r.Index.Store.Consistent.{IsConsistent}
use link_r.Index.Search.{search_prepared, candidates_of, saturating_mul}
use link_r.Index.Search.Sound.{IsHit, HeapFits, search_prepared-matches}
use link_r.Index.Builder.{record_of}
use link_r.Examples.Setup.{url_api, hasher, float, float-IsOrdered, bitmap, root, page_b, document}

abbrev blob : List ℕ
blob = 1 ∷ 2 ∷ 3 ∷ 4 ∷ []

abbrev asked : List ℕ
asked = 1 ∷ 1 ∷ []

top_k-IsTop_example :
    (hits : List (DocId × ℕ)) × (out : List (DocId × ℕ)) × (scores_of asked blob 2 dot
        (scanned (length blob / 2) none)
      ≡ ok hits)
    × (top_k asked blob 2 1 dot none ≡ ok out)
    × IsTop precedes 1 hits out
top_k-IsTop_example =
    top_k-IsTop asked blob 2 1 dot none float-IsOrdered refl (omega arith) (omega arith)
      (omega arith)

abbrev lists : List (RankList ℕ)
lists = record { ids = 1 ∷ 0 ∷ []; weight = 40 } ∷ record { ids = 0 ∷ []; weight = 90 } ∷ []

reciprocal_rank_fusion-IsTop_example :
    (out : List (DocId × ℕ)) × (reciprocal_rank_fusion lists 2 1 ≡ ok out)
    × IsTop precedes 1 (fused lists 2) out
    × ((t : DocId) → HashMap.get (fused lists 2) t ≡ total none (contributions 2 t lists))
    × IsMap (fused lists 2)
    × All (λ e. total none (contributions 2 e.0 lists) ≡ some e.1) out
reciprocal_rank_fusion-IsTop_example = reciprocal_rank_fusion-IsTop lists 2 1 float-IsOrdered

abbrev doc_terms : List (List Bytes)
doc_terms = (codes "a" ∷ codes "b" ∷ codes "a" ∷ []) ∷ [] ∷ (codes "b" ∷ []) ∷ []

accumulate-tf_example :
    tf_in (accumulate true doc_terms) (codes "a") 0
    ≡ min u16_max (occurrences (codes "a") (terms_at doc_terms 0))
accumulate-tf_example = accumulate-tf true doc_terms (codes "a") 0 (omega arith)

to_doc_terms-build_example :
    (x : Bm25 ℕ (List ℕ)) × (build true doc_terms 1 1 ≡ ok x)
    × InRange bitmap.iter x
    × (x.doc_count ≡ length doc_terms)
    × (length x.doc_len ≡ length doc_terms)
    × (x.k1 ≡ 1)
    × (x.b ≡ 1)
    × (out : List (List Bytes)) × (to_doc_terms x ≡ ok out)
    × (length out ≡ length doc_terms)
    × ((d : DocId) (t : Bytes)
        → occurrences t (terms_at out d) ≡ min u16_max (occurrences t (terms_at doc_terms d)))
to_doc_terms-build_example = to_doc_terms-build true doc_terms 1 1 (omega arith)

instance abbrev float_map : FloatMap ℕ
float_map = record { cast_f32 = ok }

abbrev index : Index ℕ (List ℕ)
index = record {
  backing = owned blob;
  dim = 2;
  metric = dot;
  embedder_id = 0;
  bm25 = record {
    k1 = 1;
    b = 1;
    avgdl = 1;
    doc_count = 2;
    doc_len = 2 ∷ 1 ∷ [];
    terms = record { term = codes "a"; docs = 1 ∷ 0 ∷ []; tf = 2 ∷ 1 ∷ [] } ∷ [];
    term_index = (codes "a", 0) ∷ [];
  };
  meta = record_of (document root 3) ∷ record_of (document page_b 4) ∷ [];
  edges = [] ∷ [] ∷ [];
  graph = record { out = [] ∷ [] ∷ []; inc = [] ∷ [] ∷ [] };
  by_url = [];
}

index-IsConsistent : IsConsistent index
unfolding link_r.Index.Store.dense link_r.Index.Store.dense_of HashMap.get link_r.Prelude.insert_asc
index-IsConsistent = record {
  rows = (blob, refl, refl);
  postings = record {
    postings = ((omega arith, (omega arith, tt)), tt);
    index = λ t i h. ground arith;
  };
  lengths = refl;
  fits = omega arith;
}

abbrev query : PreparedQuery ℕ
query = record {
  vector = asked;
  terms = codes "a" ∷ codes "a" ∷ [];
  filter = Filter.tag (codes "t");
  limit = 1;
  rank = record {
    dense_weight = 1;
    sparse_weight = 1;
    fusion = rrf 60;
    candidate_multiplier = 10;
    graph_boost = 0;
  };
}

query-HeapFits : HeapFits query
unfolding candidates_of saturating_mul
query-HeapFits = omega arith

search_prepared-matches_example :
    (hits : Hits ℕ) × (found : List (Hit ℕ)) × (search_prepared index query ≡ ok hits)
    × (iter hits ≡ ok found)
    × (length found ≤ 1)
    × All (λ h. IsHit (Filter.tag (codes "t")) index.meta h.doc) found
search_prepared-matches_example =
    search_prepared-matches index query index-IsConsistent float-IsOrdered refl query-HeapFits
