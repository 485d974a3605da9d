-- ===== src/Index/Sparse/Counts.antt =====
-- The counts that `build` accumulates (src/index/sparse.rs).
use link_r.Prelude.{
  ℕ, zero, suc, ◌+◌, ◌%◌, ◌<◌, ◌≤◌, ◌≡◌, refl, ◌∙◌, inl, inr, Bool, true, false, Option, none, some,
  List, [], ◌∷◌, map, Bytes, length, min, leb, if◌then◌else◌, ◌==◌, nat_eq, nat_beq_iff, bytes_eq,
  bytes_beq_iff, u32_mod, get_elem?, Bool-cases, Option-cases, arith, occurrences,
}
use link_r.Prelude.HashMap
use link_r.Prelude.HashMap.{HashMap, IsMap, insert-IsMap}
use link_r.Resource.{DocId}
use link_r.Index.Sparse.{
  u16_max, or_zero, count_terms, local_counts, Counts, or_empty, merge_counts, accumulate_loop,
  accumulate_sequential, merge_loop, accumulate_parallel, accumulate, par_min_docs,
}

count_terms-get :
    (counts : HashMap Bytes ℕ) (terms : List Bytes) (t : Bytes) (n : ℕ)
    → or_zero (HashMap.get counts t) ≡ min u16_max n
    → or_zero (HashMap.get (count_terms counts terms) t) ≡ min u16_max (n + occurrences t terms)
unfolding count_terms occurrences
count_terms-get counts [] t n e = ground arith
count_terms-get counts (term ∷ terms) t n e =
    let at =
      HashMap.get-insert counts term t (min u16_max (or_zero (HashMap.get counts term) + 1)) in
    let ih =
      count_terms-get
        (HashMap.insert counts term (min u16_max (or_zero (HashMap.get counts term) + 1))) terms
        t in
    elim (Bool-cases (term == t)) [
      | inl same ↦
          let term_t : term ≡ t = (bytes_beq_iff term t).0 same in
          ground (arith, ih (n + 1) (ground (arith, at)))
      | inr other ↦ ground (arith, ih n (ground (arith, at)))
    ]

-- A term's frequency in a document saturates at the greatest `u16`.
local_counts-get :
    (terms : List Bytes) (t : Bytes)
    → or_zero (HashMap.get (local_counts terms) t) ≡ min u16_max (occurrences t terms)
unfolding local_counts HashMap.get
local_counts-get terms t = ground (arith, count_terms-get [] terms t 0 (omega arith))

count_terms-IsMap :
    (counts : HashMap Bytes ℕ) (terms : List Bytes)
    → IsMap counts
    → IsMap (count_terms counts terms)
unfolding count_terms
count_terms-IsMap counts [] m = m
count_terms-IsMap counts (term ∷ terms) m =
    let more = min u16_max (or_zero (HashMap.get counts term) + 1) in
    count_terms-IsMap (HashMap.insert counts term more) terms (insert-IsMap counts term more m)

local_counts-IsMap : (terms : List Bytes) → IsMap (local_counts terms)
unfolding local_counts
local_counts-IsMap terms = count_terms-IsMap [] terms tt

-- The frequency of a term in a document.
abbrev pub tf_in : Counts → Bytes → DocId → ℕ
tf_in acc t d = or_zero (HashMap.get (or_empty (HashMap.get acc t)) d)

abbrev or_old : ℕ → Option ℕ → ℕ
or_old old none = old
or_old old (some f) = f

merge_step-tf :
    (acc : Counts) (doc : DocId) (term : Bytes) (f : ℕ) (t : Bytes) (d : DocId)
    → tf_in (HashMap.insert acc term (HashMap.insert (or_empty (HashMap.get acc term)) doc f)) t d
      ≡ (if term == t then if doc == d then f else tf_in acc t d else tf_in acc t d)
merge_step-tf acc doc term f t d =
    let outer =
      HashMap.get-insert acc term t (HashMap.insert (or_empty (HashMap.get acc term)) doc f) in
    let inner = HashMap.get-insert (or_empty (HashMap.get acc term)) doc d f in
    elim (Bool-cases (term == t)) [
      | inl same ↦
          let term_t : term ≡ t = (bytes_beq_iff term t).0 same in ground (arith, outer, inner)
      | inr other ↦ ground (arith, outer)
    ]

merge_counts-tf :
    (acc : Counts) (doc : DocId) (counts : HashMap Bytes ℕ) (t : Bytes) (d : DocId)
    → IsMap counts
    → tf_in (merge_counts acc doc counts) t d
      ≡ (if doc == d then or_old (tf_in acc t d) (HashMap.get counts t) else tf_in acc t d)
unfolding merge_counts HashMap.get
merge_counts-tf acc doc [] t d m = ground arith
merge_counts-tf acc doc ((term, f) ∷ counts) t d (fresh, m) =
    let step = merge_step-tf acc doc term f t d in
    let ih =
      merge_counts-tf
        (HashMap.insert acc term (HashMap.insert (or_empty (HashMap.get acc term)) doc f)) doc
        counts t d m in
    elim (Bool-cases (term == t)) [
      | inl same ↦
          let term_t : term ≡ t = (bytes_beq_iff term t).0 same in
          let gone : HashMap.get counts t ≡ none = ground (arith, fresh, term_t) in
          ground (arith, ih, step, gone)
      | inr other ↦ ground (arith, ih, step)
    ]

-- Where the document has no frequency yet, it gets its counts.
merge_counts-fresh :
    (acc : Counts) (doc : DocId) (terms : List Bytes) (t : Bytes) (d : DocId)
    → tf_in acc t doc ≡ 0
    → tf_in (merge_counts acc doc (local_counts terms)) t d
      ≡ (if doc == d then min u16_max (occurrences t terms) else tf_in acc t d)
merge_counts-fresh acc doc terms t d fresh =
    let merged = merge_counts-tf acc doc (local_counts terms) t d (local_counts-IsMap terms) in
    let local = local_counts-get terms t in
    elim (Bool-cases (doc == d)) [
      | inl same ↦
          let doc_d : doc ≡ d = (nat_beq_iff doc d).0 same in
          elim (Option-cases (HashMap.get (local_counts terms) t)) [
            | inl absent ↦ ground (arith, merged, local, fresh, absent)
            | inr (f, present) ↦ ground (arith, merged, local, present)
          ]
      | inr other ↦ ground (arith, merged)
    ]

accumulate_loop-old :
    (acc : Counts) (i : ℕ) (docs : List (List Bytes)) (t : Bytes) (d : DocId)
    → i + length docs ≤ u32_mod
    → d < i
    → ((j : DocId) → i ≤ j → tf_in acc t j ≡ 0)
    → tf_in (accumulate_loop acc i docs) t d ≡ tf_in acc t d
unfolding accumulate_loop
accumulate_loop-old acc i [] t d fits old fresh = refl
accumulate_loop-old acc i (terms ∷ docs) t d fits old fresh =
    let id : i % u32_mod ≡ i = omega arith in
    let step : (j : DocId) → _ = λ j. merge_counts-fresh acc i terms t j (fresh i (omega arith)) in
    rw id (
      accumulate_loop-old (merge_counts acc i (local_counts terms)) (i + 1) docs t d (omega arith)
        (omega arith) (λ j h. ground (arith, step j, fresh j))
      ∙ ground (arith, step d))

abbrev or_no_terms : Option (List Bytes) → List Bytes
or_no_terms none = []
or_no_terms (some terms) = terms

-- The terms of a document, none out of range.
abbrev pub terms_at : List (List Bytes) → DocId → List Bytes
terms_at docs d = or_no_terms (get_elem? docs d)

accumulate_loop-tf :
    (acc : Counts) (i : ℕ) (docs : List (List Bytes)) (t : Bytes) (k : ℕ)
    → i + length docs ≤ u32_mod
    → ((j : DocId) → i ≤ j → tf_in acc t j ≡ 0)
    → tf_in (accumulate_loop acc i docs) t (i + k) ≡ min u16_max (occurrences t (terms_at docs k))
unfolding accumulate_loop occurrences
accumulate_loop-tf acc i [] t k fits fresh = ground (arith, fresh (i + k))
accumulate_loop-tf acc i (terms ∷ docs) t zero fits fresh =
    let id : i % u32_mod ≡ i = omega arith in
    let here : i + 0 ≡ i = omega arith in
    let step : (j : DocId) → _ = λ j. merge_counts-fresh acc i terms t j (fresh i (omega arith)) in
    rw (id, here)
      (accumulate_loop-old (merge_counts acc i (local_counts terms)) (i + 1) docs t i (omega arith)
          (omega arith) (λ j h. ground (arith, step j, fresh j))
        ∙ ground (arith, step i))
accumulate_loop-tf acc i (terms ∷ docs) t (suc k) fits fresh =
    let id : i % u32_mod ≡ i = omega arith in
    let there : i + suc k ≡ i + 1 + k = omega arith in
    let step : (j : DocId) → _ = λ j. merge_counts-fresh acc i terms t j (fresh i (omega arith)) in
    rw (id, there)
      (accumulate_loop-tf (merge_counts acc i (local_counts terms)) (i + 1) docs t k (omega arith)
        (λ j h. ground (arith, step j, fresh j)))

merge_loop-local :
    (acc : Counts) (i : ℕ) (docs : List (List Bytes))
    → merge_loop acc i (map local_counts docs) ≡ accumulate_loop acc i docs
unfolding merge_loop accumulate_loop
merge_loop-local acc i [] = refl
merge_loop-local acc i (terms ∷ docs) =
    merge_loop-local (merge_counts acc (i % u32_mod) (local_counts terms)) (i + 1) docs

-- The parallel path accumulates what the sequential path does, to the order of the entries.
pub accumulate_parallel-eq :
    (parallel : Bool) (doc_terms : List (List Bytes))
    → accumulate parallel doc_terms ≡ accumulate_sequential doc_terms
unfolding accumulate accumulate_parallel accumulate_sequential
accumulate_parallel-eq false doc_terms = refl
accumulate_parallel-eq true doc_terms = elim (Bool-cases (leb par_min_docs (length doc_terms))) [
  | inl many ↦ rw (many, accumulate) (merge_loop-local [] 0 doc_terms)
  | inr few ↦ rw (few, accumulate) refl
]

-- For at most 2^32 documents, whichever path accumulates, the frequency of a term in a document is
-- how often the document holds it, at most 65535.
pub accumulate-tf :
    (parallel : Bool) (docs : List (List Bytes)) (t : Bytes) (d : DocId)
    → length docs ≤ u32_mod
    → tf_in (accumulate parallel docs) t d ≡ min u16_max (occurrences t (terms_at docs d))
unfolding accumulate_sequential HashMap.get
accumulate-tf parallel docs t d fits =
    let loop = accumulate_loop-tf [] 0 docs t d (omega arith) (λ j h. refl) in
    let at : 0 + d ≡ d = omega arith in rw (accumulate_parallel-eq parallel docs) (rw at at loop)
