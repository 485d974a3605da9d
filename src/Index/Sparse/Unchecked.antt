-- ===== src/Index/Sparse/Unchecked.antt =====
-- `from_bytes` does not compare the ids of the postings with the number of documents
-- (src/index/sparse.rs).
use link_r.Prelude.{
  ℕ, ◌≤◌, ◌<◌, ◌≡◌, refl, none, some, List, [], ◌∷◌, Bytes, length, get_elem?, get_elem?-none, ◌==◌,
  nat_eq, bytes_eq, false, ◌||◌, arith,
}
use link_r.Prelude.HashMap
use link_r.Error.{ok, panic}
use link_r.External.{Bitmap, ByteIo, FloatIo, Float}
use link_r.Resource.{DocId}
use link_r.Index.Sparse.{TermPosting, Bm25, pairs_of}
use link_r.Index.Sparse.Codec.{to_bytes, from_bytes}
use link_r.Index.Sparse.RoundTrip.{Fits, from_bytes-to_bytes}
use link_r.Index.Sparse.Score.{score_pair, score_pairs, score_term, score_terms, score, is_excluded}

module _ {F : Type 0} ⦃f : Float F⦄ ⦃s : Bitmap⦄ where
  score_pair_panics :
      (x : Bm25 F s.Set) (idf_t : F) (d tf : ℕ)
      → length x.doc_len ≤ d
      → score_pair x idf_t none [] (d, tf) ≡ panic
  unfolding score_pair is_excluded
  score_pair_panics x idf_t d tf out = rw (get_elem?-none x.doc_len d out) refl

  score_term_panics :
      (x : Bm25 F s.Set) (t : Bytes) (ti d tf : ℕ) (p : TermPosting s.Set)
      (pairs : List (DocId × ℕ))
      → HashMap.get x.term_index t ≡ some ti
      → get_elem? x.terms ti ≡ some p
      → pairs_of p ≡ (d, tf) ∷ pairs
      → length x.doc_len ≤ d
      → score_term x none [] t ≡ panic
  unfolding score_term score_pairs
  score_term_panics x t ti d tf p pairs known at first out =
      rw (known, score_term, at, first, score_pair_panics x _ d tf out) refl

module _ {F : Type 0} ⦃f : Float F⦄ ⦃s : Bitmap⦄ ⦃io : ByteIo⦄ ⦃fio : FloatIo F⦄ where
  -- A section whose columns are in the ranges of their types decodes although a term's first posting
  -- names no document, and a search for that term then panics.
  pub from_bytes_unchecked :
      (x : Bm25 F s.Set) (t : Bytes) (limit ti d tf : ℕ) (p : TermPosting s.Set)
      (pairs : List (DocId × ℕ))
      → Fits x
      → 0 < x.doc_count
      → 0 < limit
      → HashMap.get x.term_index t ≡ some ti
      → get_elem? x.terms ti ≡ some p
      → pairs_of p ≡ (d, tf) ∷ pairs
      → length x.doc_len ≤ d
      → (from_bytes (to_bytes x) ≡ ok x) × (score x (t ∷ []) none limit ≡ panic)
  unfolding score score_terms
  from_bytes_unchecked x t limit ti d tf p pairs fit docs some_asked known at first out =
      let on : (x.doc_count == 0 || limit == 0) ≡ false = ground arith in
      (
        from_bytes-to_bytes x fit,
        rw (on, score, score_term_panics x t ti d tf p pairs known at first out) refl,
      )
