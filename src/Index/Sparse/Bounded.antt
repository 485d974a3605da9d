-- ===== src/Index/Sparse/Bounded.antt =====
-- What scoring returns on an index whose postings are in range, and that it panics on others
-- (src/index/sparse.rs).
use link_r.Prelude.{
  ℕ, ◌<◌, ◌≤◌, ◌≡◌, refl, inl, inr, false, ◌||◌, Option, some, List, [], ◌∷◌, Bytes, any,
  get_elem?_total, length, length-take, get_elem?-All, All, ◌==◌, nat_eq, bytes_eq, take-All,
  sort_by-All, Bool-cases, Option-cases, arith, take,
}
use link_r.Prelude.HashMap
use link_r.Prelude.HashMap.{HashMap, insert-All}
use link_r.Error.{Result, ok}
use link_r.External.{Float, IsOrdered, Bitmap}
use link_r.Resource.{DocId}
use link_r.Index.Ranking.{add_score, precedes, sorted_hits}
use link_r.Index.Ranking.Top.{ranked_ok}
use link_r.Index.Sparse.{Bm25, pairs_of, zip}
use link_r.Index.Sparse.Score.{is_excluded, score_pair, score_pairs, score_term, score_terms, score}

-- The postings name documents below `n`, and the dictionary names postings.
pub record InRange {F Set : Type 0} (iter : Set → List DocId) (x : Bm25 F Set) : Type 0 where
  pub postings : All (λ p. All (λ d. d < length x.doc_len) (iter p.docs)) x.terms
  pub index : (t : Bytes) (i : ℕ) → HashMap.get x.term_index t ≡ some i → i < length x.terms

zip-All {κ} :
    (P : DocId → Type κ) (docs : List DocId) (tf : List ℕ)
    → All P docs
    → All (λ e. P e.0) (zip docs tf)
unfolding zip
zip-All P [] tf ps = tt
zip-All P (d ∷ docs) [] ps = tt
zip-All P (d ∷ docs) (f ∷ tf) (p, ps) = (p, zip-All P docs tf ps)

module _ {F : Type 0} ⦃f : Float F⦄ ⦃s : Bitmap⦄ (x : Bm25 F s.Set) (allowed : Option s.Set) where
  -- A document that is in range and not excluded.
  abbrev pub IsAllowed : DocId → Type 0
  IsAllowed d = (d < length x.doc_len) × (is_excluded allowed d ≡ false)

  -- The outcome of a part of the scoring: scores of documents that are allowed.
  abbrev Scores : Result (HashMap DocId F) → Type 0
  Scores r = (m : HashMap DocId F) × (r ≡ ok m) × All (λ e. IsAllowed e.0) m

  score_pair-Scores :
      (idf_t : F) (scores : HashMap DocId F) (e : DocId × ℕ)
      → e.0 < length x.doc_len
      → All (λ e. IsAllowed e.0) scores
      → Scores (score_pair x idf_t allowed scores e)
  unfolding score_pair add_score
  score_pair-Scores idf_t scores (d, tf) inside ps = elim (Bool-cases (is_excluded allowed d)) [
    | inl out ↦ rw (out, score_pair) (scores, refl, ps)
    | inr kept ↦
        let (dl, e) = get_elem?_total x.doc_len d inside in
        rw (kept, score_pair, e)
          (_, refl, insert-All (λ e. IsAllowed e.0) scores d _ (inside, kept) ps)
  ]

  score_pairs-Scores :
      (idf_t : F) (scores : HashMap DocId F) (pairs : List (DocId × ℕ))
      → All (λ e. e.0 < length x.doc_len) pairs
      → All (λ e. IsAllowed e.0) scores
      → Scores (score_pairs x idf_t allowed scores pairs)
  unfolding score_pairs
  score_pairs-Scores idf_t scores [] inside ps = (scores, refl, ps)
  score_pairs-Scores idf_t scores (e ∷ pairs) (i, inside) ps =
      let (m, ran, ms) = score_pair-Scores idf_t scores e i ps in
      let (m', ran', ms') = score_pairs-Scores idf_t m pairs inside ms in
      (m', rw (ran, ran') refl, ms')

  score_term-Scores :
      InRange s.iter x
      → (scores : HashMap DocId F) (term : Bytes) → All (λ e. IsAllowed e.0) scores
      → Scores (score_term x allowed scores term)
  unfolding score_term
  score_term-Scores r scores term ps = elim (Option-cases (HashMap.get x.term_index term)) [
    | inl unknown ↦ rw (unknown, score_term) (scores, refl, ps)
    | inr (ti, known) ↦
        let (posting, e) = get_elem?_total x.terms ti (r.index term ti known) in
        let inside = get_elem?-All _ x.terms ti posting r.postings e in
        rw (known, score_term, e)
          (score_pairs-Scores _ scores (pairs_of posting)
            (zip-All _ (s.iter posting.docs) posting.tf inside) ps)
  ]

  score_terms-Scores :
      InRange s.iter x
      → (seen : List Bytes) (scores : HashMap DocId F) (terms : List Bytes)
      → All (λ e. IsAllowed e.0) scores
      → Scores (score_terms x allowed seen scores terms)
  unfolding score_terms
  score_terms-Scores r seen scores [] ps = (scores, refl, ps)
  score_terms-Scores r seen scores (term ∷ terms) ps =
      elim (Bool-cases (any (λ t. t == term) seen)) [
        | inl again ↦ rw (again, score_terms) (score_terms-Scores r (term ∷ seen) scores terms ps)
        | inr fresh ↦
            let (m, ran, ms) = score_term-Scores r scores term ps in
            let (m', ran', ms') = score_terms-Scores r (term ∷ seen) m terms ms in
            (m', rw (fresh, score_terms, ran, ran') refl, ms')
      ]

  -- On an index in range, over floats without a NaN, a search does not panic, and returns at most `limit` documents, each in
  -- range and allowed.
  pub score-IsAllowed :
      (terms : List Bytes) (limit : ℕ)
      → InRange s.iter x
      → IsOrdered F
      → (hits : List (DocId × F)) × (score x terms allowed limit ≡ ok hits)
        × (length hits ≤ limit)
        × All (λ e. IsAllowed e.0) hits
  unfolding score
  score-IsAllowed terms limit r o = elim (Bool-cases (x.doc_count == 0 || limit == 0)) [
    | inl off ↦ ([], rw (off, score) refl, omega arith, tt)
    | inr on ↦
        let (m, ran, ms) = score_terms-Scores r [] [] terms tt in
        (
          take limit (sorted_hits m),
          rw (on, score, ran) (ranked_ok o m limit),
          omega (arith, length-take limit (sorted_hits m)),
          take-All (λ e. IsAllowed e.0) limit (sorted_hits m)
              (sort_by-All precedes (λ e. IsAllowed e.0) m ms),
        )
  ]
