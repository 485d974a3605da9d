-- ===== src/Index/Sparse/Buckets.antt =====
-- What `to_doc_terms` puts into the buckets of the documents (src/index/sparse.rs).
use link_r.Prelude.{
  ℕ, suc, ap, sym, subst, ◌∙◌, sort_by, sort_by-All, ◌+◌, ◌*◌, ◌<◌, ◌≡◌, refl, inl, inr, none, some,
  List, [], ◌∷◌, ◌++◌, Bytes, length, get_elem?, set, replicate, ◌==◌, nat_eq, nat_beq_iff,
  bytes_eq, bytes_beq_iff, All, Bool-cases, arith, if◌then◌else◌, get_elem?_total,
  get_elem?-set_self, get_elem?-set_ne, length-set, occurrences, occurrences-append,
  occurrences-replicate,
}
use native.Mathlib.Nat.{suc-mul, zero-mul}
use link_r.Prelude.HashMap
use link_r.Prelude.HashMap.{HashMap, IsMap}
use link_r.Error.{ok}
use link_r.External.{Bitmap}
use link_r.Resource.{DocId}
use link_r.Index.Sparse.{
  TermPosting, or_zero, Counts, push_term, push_posting, push_postings, pairs_of, posting_of,
  postings_of, key_leb,
}
use link_r.Index.Sparse.Counts.{terms_at, tf_in}
use link_r.Index.Sparse.Shape.{IsCounts, value_of}
use link_r.Index.Sparse.Postings.{pairs_of-posting_of, get-sort_by, sort_by-IsMap, posting_of-ids}

push_term-terms :
    (docs : List (List Bytes)) (doc : DocId) (term : Bytes) (tf : ℕ)
    → doc < length docs
    → (docs' : List (List Bytes)) × (push_term docs doc term tf ≡ ok docs')
      × (length docs' ≡ length docs)
      × ((d : DocId) (t : Bytes)
          → occurrences t (terms_at docs' d)
            ≡ occurrences t (terms_at docs d)
              + (if doc == d then if term == t then tf else 0 else 0))
unfolding push_term
push_term-terms docs doc term tf inside =
    let (bucket, e) = get_elem?_total docs doc inside in
    let more = bucket ++ replicate tf term in
    (
      set docs doc more,
      rw (e, push_term) refl,
      length-set docs doc more,
      λ d t. elim (Bool-cases (doc == d)) [
        | inl same ↦
            let doc_d : doc ≡ d = (nat_beq_iff doc d).0 same in
            ground (
              arith,
              e,
              get_elem?-set_self docs doc more inside,
              occurrences-append t bucket (replicate tf term),
              occurrences-replicate t term tf,
            )
        | inr other ↦
            let kept : get_elem? (set docs doc more) d ≡ get_elem? docs d =
              get_elem?-set_ne docs doc d more (λ p. ground (arith, nat_beq_iff doc d)) in
            ground (arith, kept)
      ],
    )

push_posting-terms :
    (docs : List (List Bytes)) (term : Bytes) (pairs : List (DocId × ℕ))
    → IsMap pairs
    → All (λ e. e.0 < length docs) pairs
    → (docs' : List (List Bytes)) × (push_posting docs term pairs ≡ ok docs')
      × (length docs' ≡ length docs)
      × ((d : DocId) (t : Bytes)
          → occurrences t (terms_at docs' d)
            ≡ occurrences t (terms_at docs d)
              + (if term == t then or_zero (HashMap.get pairs d) else 0))
unfolding push_posting HashMap.get
push_posting-terms docs term [] m ids = (docs, refl, refl, λ d t. ground arith)
push_posting-terms docs term ((doc, f) ∷ pairs) (fresh, m) (inside, ids) =
    let (docs1, ran, len, at) = push_term-terms docs doc term f inside in
    let ids1 : All (λ e. e.0 < length docs1) pairs = rw len ids in
    let (docs2, ran2, len2, at2) = push_posting-terms docs1 term pairs m ids1 in
    (
      docs2,
      rw (ran, ran2) refl,
      len2 ∙ len,
      λ d t. elim (Bool-cases (doc == d)) [
        | inl same ↦
            let doc_d : doc ≡ d = (nat_beq_iff doc d).0 same in
            let gone : HashMap.get pairs d ≡ none = ground (arith, fresh, doc_d) in
            ground (arith, at d t, at2 d t, gone)
        | inr other ↦ ground (arith, at d t, at2 d t)
      ],
    )

one_more_mul : (n x : ℕ) → (1 + n) * x ≡ x + n * x
one_more_mul n x = let next : 1 + n ≡ suc n = omega arith in rw next (omega (arith, suc-mul n x))

push_posting-posting_of :
    ⦃b : Bitmap⦄ (docs docs' : List (List Bytes)) (term : Bytes) (m : HashMap DocId ℕ)
    → IsMap m
    → push_posting docs term (sort_by key_leb m) ≡ ok docs'
    → push_posting docs (posting_of term m).term (pairs_of (posting_of term m)) ≡ ok docs'
unfolding posting_of
push_posting-posting_of docs docs' term m u e =
    subst (λ ps. push_posting docs term ps ≡ ok docs') (sym (pairs_of-posting_of term m u)) e

-- The postings of some terms that the frequencies hold are made, and put each term into each
-- document as often as its frequency says.
pub push_postings-terms :
    ⦃b : Bitmap⦄ (acc : Counts) (docs : List (List Bytes)) (ts : List Bytes) (n : ℕ)
    → IsCounts n acc
    → length docs ≡ n
    → All (λ t. (m : HashMap DocId ℕ) × (HashMap.get acc t ≡ some m)) ts
    → (terms : List (TermPosting b.Set)) × (docs' : List (List Bytes)) × (postings_of acc ts
        ≡ ok terms)
      × (push_postings docs terms ≡ ok docs')
      × (length docs' ≡ n)
      × All (λ p. All (λ d. d < n) (b.iter p.docs)) terms
      × (length terms ≡ length ts)
      × ((d : DocId) (t : Bytes)
          → occurrences t (terms_at docs' d)
            ≡ occurrences t (terms_at docs d) + occurrences t ts * tf_in acc t d)
unfolding push_postings postings_of occurrences
push_postings-terms acc docs [] n c len held =
    ([], docs, refl, refl, len, tt, refl, λ d t. rw zero-mul (omega arith))
push_postings-terms ⦃b⦄ acc docs (term ∷ ts) n c len ((m, e), held) =
    let value = value_of n acc term {m = m} c e in
    let ids : All (λ x. x.0 < length docs) (sort_by key_leb m) =
      rw len (sort_by-All key_leb (λ x. x.0 < n) m value.ids) in
    let (docs1, ran, len1, at) =
      push_posting-terms docs term (sort_by key_leb m) (sort_by-IsMap m value.unique) ids in
    let (terms, docs2, made, ran2, len2, inside, count, at2) =
      push_postings-terms acc docs1 ts n c (len1 ∙ len) held in
    (
      posting_of term m ∷ terms,
      docs2,
      rw (e, made) refl,
      rw (push_posting-posting_of docs docs1 term m value.unique ran, ran2) refl,
      len2,
      (posting_of-ids n term m value.unique value.ids, inside),
      ap suc count,
      λ d t. elim (Bool-cases (term == t)) [
        | inl same ↦
            let term_t : term ≡ t = (bytes_beq_iff term t).0 same in
            let here : tf_in acc t d ≡ or_zero (HashMap.get m d) = ground (arith, e, term_t) in
            ground (
              arith,
              at d t,
              at2 d t,
              here,
              get-sort_by m d value.unique,
              one_more_mul (occurrences t ts) (tf_in acc t d),
            )
        | inr other ↦ ground (arith, at d t, at2 d t)
      ],
    )
