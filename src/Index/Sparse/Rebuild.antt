-- ===== src/Index/Sparse/Rebuild.antt =====
-- Building an index and taking the terms back out (src/index/sparse.rs).
use link_r.Prelude.{
  ℕ, zero, suc, ap, ◌+◌, ◌*◌, ◌%◌, ◌<◌, ◌≡◌, refl, inl, inr, Bool, none, some, List, [], ◌∷◌, Bytes,
  length, length-map, map, min, replicate, ◌==◌, nat_eq, bytes_eq, bytes_beq_iff, u32_mod, All,
  Bool-cases, Option-cases, arith, occurrences, occurrences-sort_by, sort_by-All,
}
use native.Mathlib.Nat.{suc-mul, zero-mul, mul-zero}
use link_r.Prelude.HashMap
use link_r.Prelude.HashMap.{HashMap, IsMap, IsMap-get}
use link_r.Error.{ok}
use link_r.External.{Float, Bitmap}
use link_r.Resource.{DocId}
use link_r.UrlKey.Segments.{bytes_leb}
use link_r.Index.Sparse.{
  Bm25, u16_max, Counts, accumulate, term_strings_of, index_terms, build, to_doc_terms, avgdl_of,
}
use link_r.Index.Sparse.Counts.{terms_at, tf_in, accumulate-tf}
use link_r.Index.Sparse.Shape.{accumulate-IsCounts}
use link_r.Index.Sparse.Buckets.{push_postings-terms}
use link_r.Index.Sparse.Bounded.{InRange}

abbrev key : Bytes × HashMap DocId ℕ → Bytes
key e = e.0

absent_occurrences :
    (acc : Counts) (t : Bytes) → HashMap.get acc t ≡ none → occurrences t (map key acc) ≡ 0
unfolding HashMap.get occurrences
absent_occurrences [] t h = refl
absent_occurrences ((j, m) ∷ acc) t h = elim (Bool-cases (j == t)) [
  | inl same ↦ absurd (ground arith)
  | inr other ↦ ground (arith, absent_occurrences acc t (ground arith))
]

present_occurrences :
    (acc : Counts) (t : Bytes) (m : HashMap DocId ℕ)
    → IsMap acc
    → HashMap.get acc t ≡ some m
    → occurrences t (map key acc) ≡ 1
unfolding HashMap.get occurrences
present_occurrences [] t m u h = absurd (ground arith)
present_occurrences ((j, w) ∷ acc) t m (fresh, u) h = elim (Bool-cases (j == t)) [
  | inl same ↦
      let j_t : j ≡ t = (bytes_beq_iff j t).0 same in
      ground (arith, absent_occurrences acc t (ground (arith, fresh, j_t)))
  | inr other ↦ ground (arith, present_occurrences acc t m u (ground arith))
]

-- A term stands among the sorted terms once, or has no frequency.
once_tf :
    (acc : Counts) (t : Bytes) (d : DocId)
    → IsMap acc
    → occurrences t (term_strings_of acc) * tf_in acc t d ≡ tf_in acc t d
unfolding term_strings_of HashMap.get
once_tf acc t d u =
    let sorted = occurrences-sort_by bytes_leb t (map key acc) in
    elim (Option-cases (HashMap.get acc t)) [
      | inl absent ↦ rw (sorted, absent) (mul-zero (occurrences t (map key acc)))
      | inr (m, present) ↦
          let one : occurrences t (map key acc) ≡ suc zero =
            present_occurrences acc t m u present in
          rw (sorted, one) (omega (arith, suc-mul zero (tf_in acc t d), zero-mul (tf_in acc t d)))
    ]

held_keys :
    (acc rest : Counts)
    → All (λ e. HashMap.get acc e.0 ≡ some e.1) rest
    → All (λ t. (m : HashMap DocId ℕ) × (HashMap.get acc t ≡ some m)) (map key rest)
held_keys acc [] ps = tt
held_keys acc (e ∷ rest) (p, ps) = ((e.1, p), held_keys acc rest ps)

length-replicate : (n : ℕ) → length (replicate {A = List Bytes} n []) ≡ n
length-replicate zero = refl
length-replicate (suc n) = ap suc (length-replicate n)

terms_at-replicate : (n d : ℕ) → terms_at (replicate n []) d ≡ []
terms_at-replicate zero d = refl
terms_at-replicate (suc n) zero = refl
terms_at-replicate (suc n) (suc d) = terms_at-replicate n d

index_terms_lt :
    (index : HashMap Bytes ℕ) (i : ℕ) (ts : List Bytes) (t : Bytes) (j : ℕ)
    → ((k : ℕ) → HashMap.get index t ≡ some k → k < i)
    → HashMap.get (index_terms index i ts) t ≡ some j
    → j < i + length ts
unfolding index_terms
index_terms_lt index i [] t j old h = omega (arith, old j h)
index_terms_lt index i (term ∷ ts) t j old h =
    let later =
      index_terms_lt (HashMap.insert index term i) (i + 1) ts t j
        (λ k e. ground (arith, old k, HashMap.get-insert index term t i)) h in
    omega (arith, later)

module _ {F : Type 0} ⦃f : Float F⦄ ⦃b : Bitmap⦄ where
  -- Building from fewer than `2^32` documents does not panic, and all postings of the index name
  -- documents. `to_doc_terms` then gives every document its terms, each as often as before but at
  -- most 65535 times, the greatest `u16`.
  pub to_doc_terms-build :
      (parallel : Bool) (docs : List (List Bytes)) (k1 c : F)
      → length docs < u32_mod
      → (x : Bm25 F b.Set) × (build parallel docs k1 c ≡ ok x)
        × InRange b.iter x
        × (x.doc_count ≡ length docs)
        × (length x.doc_len ≡ length docs)
        × (x.k1 ≡ k1)
        × (x.b ≡ c)
        × (out : List (List Bytes)) × (to_doc_terms x ≡ ok out)
        × (length out ≡ length docs)
        × ((d : DocId) (t : Bytes)
            → occurrences t (terms_at out d) ≡ min u16_max (occurrences t (terms_at docs d)))
  unfolding build to_doc_terms HashMap.get term_strings_of occurrences
  to_doc_terms-build parallel docs k1 c fits =
      let acc = accumulate parallel docs in
      let n = length docs in
      let shape = accumulate-IsCounts parallel docs (omega arith) in
      let held =
        sort_by-All bytes_leb _ (map key acc) (held_keys acc acc (IsMap-get acc shape.unique)) in
      let (terms, out, made, pushed, len, inside, count, at) =
        push_postings-terms acc (replicate n []) (term_strings_of acc) n shape (length-replicate n)
          held in
      let id : n % u32_mod ≡ n = omega arith in
      let lens : length (map (λ t. length t % u32_mod) docs) ≡ n = length-map _ docs in
      let doc_len = map (λ t. length t % u32_mod) docs in
      let x : Bm25 F b.Set = record {
        k1 = k1;
        b = c;
        avgdl = avgdl_of (n % u32_mod) doc_len;
        doc_count = n % u32_mod;
        doc_len = doc_len;
        terms = terms;
        term_index = index_terms [] 0 (term_strings_of acc);
      } in
      (
        x,
        rw made refl,
        record {
          postings = rw lens inside;
          index = λ t i h.
              let lt =
                index_terms_lt [] 0 (term_strings_of acc) t i (λ k e. absurd (ground arith)) h in
              omega (arith, lt, count);
        },
        id,
        lens,
        refl,
        refl,
        out,
        rw id pushed,
        len,
        λ d t. ground (
          arith,
          at d t,
          once_tf acc t d shape.unique,
          accumulate-tf parallel docs t d (omega arith),
          terms_at-replicate n d,
        ),
      )
