-- ===== src/Index/Sparse/Score.antt =====
-- src/index/sparse.rs: scoring a query.
use link_r.Prelude.{
  ℕ, Bool, false, not, ◌||◌, Option, none, some, List, [], ◌∷◌, Bytes, any, get_elem?,
  if◌then◌else◌, ◌==◌, nat_eq, bytes_eq,
}
use link_r.Prelude.HashMap
use link_r.Prelude.HashMap.{HashMap}
use link_r.Error.{Result, ok, panic, ◌>>=◌}
use link_r.External.{Float, Bitmap}
use link_r.Resource.{DocId}
use link_r.Index.Builder.{or_panic}
use link_r.Index.Ranking.{add_score, ranked}
use link_r.Index.Sparse.{Bm25, pairs_of}

module _ {F : Type 0} ⦃f : Float F⦄ where
  unfoldable pub idf : F → F → F
  idf n df = f.ln (f.add f.one (f.div (f.add (f.sub n df) f.half) (f.add df f.half)))

  unfoldable pub term_weight : F → F → F → F → F → F
  term_weight tf dl avgdl k1 b =
      f.div (f.mul tf (f.add k1 f.one))
        (f.add tf (f.mul k1 (f.add (f.sub f.one b) (f.div (f.mul b dl) (f.max avgdl f.one)))))

-- `allowed.is_some_and(|a| !a.contains(doc))`
unfoldable pub is_excluded : ⦃s : Bitmap⦄ → Option s.Set → DocId → Bool
is_excluded none doc = false
is_excluded ⦃s⦄ (some allowed) doc = not (s.contains allowed doc)

module _ {F : Type 0} ⦃f : Float F⦄ ⦃s : Bitmap⦄ where
  -- One document of a posting; `doc_len[doc]` panics out of range.
  unfoldable pub score_pair :
      Bm25 F s.Set → F → Option s.Set → HashMap DocId F → DocId × ℕ → Result (HashMap DocId F)
  score_pair self idf_t allowed scores (doc, tf) =
      if is_excluded allowed doc then ok scores else (do
        dl ← or_panic (get_elem? self.doc_len doc)
        ok (
            add_score scores doc (
              f.mul idf_t (term_weight (f.from_nat tf) (f.from_nat dl) self.avgdl self.k1 self.b))))

  unfoldable pub score_pairs :
      Bm25 F s.Set
      → F
      → Option s.Set
      → HashMap DocId F
      → List (DocId × ℕ)
      → Result (HashMap DocId F)
  score_pairs self idf_t allowed scores [] = ok scores
  score_pairs self idf_t allowed scores (pair ∷ pairs) =
      score_pair self idf_t allowed scores pair >>= λ scores'.
      score_pairs self idf_t allowed scores' pairs

  -- A term of the query: unknown terms are skipped, and `terms[ti]` panics out of range.
  unfoldable pub score_term :
      Bm25 F s.Set → Option s.Set → HashMap DocId F → Bytes → Result (HashMap DocId F)
  score_term self allowed scores term = elim (HashMap.get self.term_index term) [
    | none ↦ ok scores
    | some ti ↦ elim (get_elem? self.terms ti) [
      | none ↦ panic
      | some posting ↦
          score_pairs self (idf (f.from_nat self.doc_count) (f.from_nat (s.len posting.docs)))
            allowed scores (pairs_of posting)
    ]
  ]

  -- The loop over the query, with the terms seen.
  unfoldable pub score_terms :
      Bm25 F s.Set
      → Option s.Set
      → List Bytes
      → HashMap DocId F
      → List Bytes
      → Result (HashMap DocId F)
  score_terms self allowed seen scores [] = ok scores
  score_terms self allowed seen scores (term ∷ query_terms) =
      (if any (λ t. t == term) seen then ok scores else score_term self allowed scores term)
      >>= λ scores'. score_terms self allowed (term ∷ seen) scores' query_terms

  unfoldable pub score : Bm25 F s.Set → List Bytes → Option s.Set → ℕ → Result (List (DocId × F))
  score self query_terms allowed limit =
      if self.doc_count == 0 || limit == 0
      then ok []
      else (do scores ← score_terms self allowed [] [] query_terms; ranked scores limit)
