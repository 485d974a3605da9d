-- ===== src/Index/Sparse.antt =====
-- src/index/sparse.rs: the BM25 index. Terms are their bytes. A term frequency is a `u16` that
-- saturates; ids and lengths are `u32`, and `as` wraps. An index out of range panics.
pub mod Score
pub mod Bounded
pub mod Codec
pub mod RoundTrip
pub mod Unchecked
pub mod Counts
pub mod Shape
pub mod Postings
pub mod Buckets
pub mod Rebuild
use link_r.Prelude.{
  ℕ, zero, suc, ◌+◌, ◌*◌, ◌%◌, Bool, true, false, Option, none, some, List, [], ◌∷◌, ◌++◌, map,
  Bytes, length, min, leb, if◌then◌else◌, ◌==◌, nat_eq, bytes_eq, u32_mod, sort_by, replicate,
  get_elem?, set,
}
use link_r.Prelude.HashMap
use link_r.Prelude.HashMap.{HashMap}
use link_r.Error.{Result, ok, err, panic, ◌>>=◌}
use link_r.External.{Float, Bitmap}
use link_r.Resource.{DocId}
use link_r.UrlKey.Segments.{bytes_leb}
use link_r.Index.Builder.{or_panic}

-- `docs` is the bitmap, and `tf` follows its ascending order.
pub record TermPosting (Set : Type 0) : Type 0 where
  pub term : Bytes
  pub docs : Set
  pub tf : List ℕ

pub record Bm25 (F Set : Type 0) : Type 0 where
  pub k1 : F
  pub b : F
  pub avgdl : F
  pub doc_count : ℕ
  pub doc_len : List ℕ
  pub terms : List (TermPosting Set)
  pub term_index : HashMap Bytes ℕ

-- `u16::MAX`
abbrev pub u16_max : ℕ
u16_max = 65535

abbrev pub or_zero : Option ℕ → ℕ
or_zero none = 0
or_zero (some n) = n

unfoldable pub count_terms : HashMap Bytes ℕ → List Bytes → HashMap Bytes ℕ
count_terms counts [] = counts
count_terms counts (term ∷ terms) =
    count_terms (HashMap.insert counts term (min u16_max (or_zero (HashMap.get counts term) + 1)))
      terms

unfoldable pub local_counts : List Bytes → HashMap Bytes ℕ
local_counts terms = count_terms [] terms

-- Term to document to frequency.
abbrev pub Counts : Type 0
Counts = HashMap Bytes (HashMap DocId ℕ)

abbrev pub or_empty : Option (HashMap DocId ℕ) → HashMap DocId ℕ
or_empty none = []
or_empty (some m) = m

-- `acc.entry(term).or_default().insert(doc, tf)` for each count of a document.
unfoldable pub merge_counts : Counts → DocId → HashMap Bytes ℕ → Counts
merge_counts acc doc [] = acc
merge_counts acc doc ((term, tf) ∷ counts) =
    merge_counts (HashMap.insert acc term (HashMap.insert (or_empty (HashMap.get acc term)) doc tf))
      doc counts

unfoldable pub accumulate_loop : Counts → ℕ → List (List Bytes) → Counts
accumulate_loop acc i [] = acc
accumulate_loop acc i (terms ∷ doc_terms) =
    accumulate_loop (merge_counts acc (i % u32_mod) (local_counts terms)) (i + 1) doc_terms

unfoldable pub accumulate_sequential : List (List Bytes) → Counts
accumulate_sequential doc_terms = accumulate_loop [] 0 doc_terms

unfoldable pub merge_loop : Counts → ℕ → List (HashMap Bytes ℕ) → Counts
merge_loop acc i [] = acc
merge_loop acc i (local ∷ locals) = merge_loop (merge_counts acc (i % u32_mod) local) (i + 1) locals

-- The counts of the documents are taken first; rayon keeps their order.
unfoldable pub accumulate_parallel : List (List Bytes) → Counts
accumulate_parallel doc_terms = merge_loop [] 0 (map local_counts doc_terms)

abbrev pub par_min_docs : ℕ
par_min_docs = 512

-- `parallel` is the crate feature.
unfoldable pub accumulate : Bool → List (List Bytes) → Counts
accumulate false doc_terms = accumulate_sequential doc_terms
accumulate true doc_terms =
    if leb par_min_docs (length doc_terms)
    then accumulate_parallel doc_terms
    else accumulate_sequential doc_terms

abbrev pub key_leb : (DocId × ℕ) → (DocId × ℕ) → Bool
key_leb a b = leb a.0 b.0

unfoldable pub sum : List ℕ → ℕ
sum [] = 0
sum (n ∷ l) = n + sum l

module _ ⦃b : Bitmap⦄ where
  unfoldable pub fill_posting : b.Set → List (DocId × ℕ) → b.Set
  fill_posting docs [] = docs
  fill_posting docs ((d, f) ∷ docs_sorted) = fill_posting (b.insert docs d) docs_sorted

  unfoldable pub posting_of : Bytes → HashMap DocId ℕ → TermPosting b.Set
  posting_of term postings = record {
    term = term;
    docs = fill_posting b.new (sort_by key_leb postings);
    tf = map (λ e. e.1) (sort_by key_leb postings);
  }

  -- The postings of the sorted terms; `acc[&term]` panics on a missing key.
  unfoldable pub postings_of : Counts → List Bytes → Result (List (TermPosting b.Set))
  postings_of acc [] = ok []
  postings_of acc (term ∷ term_strings) = do
    postings ← or_panic (HashMap.get acc term)
    rest ← postings_of acc term_strings
    ok (posting_of term postings ∷ rest)

unfoldable pub index_terms : HashMap Bytes ℕ → ℕ → List Bytes → HashMap Bytes ℕ
index_terms term_index i [] = term_index
index_terms term_index i (term ∷ terms) =
    index_terms (HashMap.insert term_index term i) (i + 1) terms

unfoldable pub term_strings_of : Counts → List Bytes
term_strings_of acc = sort_by bytes_leb (map (λ e. e.0) acc)

unfoldable pub avgdl_of : {F : Type 0} ⦃f : Float F⦄ → ℕ → List ℕ → F
avgdl_of ⦃f⦄ doc_count doc_len =
    if doc_count == 0 then f.zero else f.div (f.from_nat (sum doc_len)) (f.from_nat doc_count)

module _ {F : Type 0} ⦃f : Float F⦄ ⦃s : Bitmap⦄ where
  unfoldable pub build : Bool → List (List Bytes) → F → F → Result (Bm25 F s.Set)
  build parallel doc_terms k1 b = do
    let doc_count = length doc_terms % u32_mod
    let doc_len = map (λ t. length t % u32_mod) doc_terms
    let acc = accumulate parallel doc_terms
    terms ← postings_of acc (term_strings_of acc)
    ok (record {
      k1 = k1;
      b = b;
      avgdl = avgdl_of doc_count doc_len;
      doc_count = doc_count;
      doc_len = doc_len;
      terms = terms;
      term_index = index_terms [] 0 (term_strings_of acc);
    })

-- `bucket.push(term)`, `tf` times.
unfoldable pub push_term : List (List Bytes) → DocId → Bytes → ℕ → Result (List (List Bytes))
push_term docs doc term tf = elim (get_elem? docs doc) [
  | none ↦ panic
  | some bucket ↦ ok (set docs doc (bucket ++ replicate tf term))
]

-- `docs.iter().zip(&tf)` of a posting.
unfoldable pub zip : List DocId → List ℕ → List (DocId × ℕ)
zip [] tf = []
zip (doc ∷ docs) [] = []
zip (doc ∷ docs) (f ∷ tf) = (doc, f) ∷ zip docs tf

unfoldable pub push_posting :
    List (List Bytes) → Bytes → List (DocId × ℕ) → Result (List (List Bytes))
push_posting docs term [] = ok docs
push_posting docs term ((doc, f) ∷ pairs) =
    push_term docs doc term f >>= λ docs'. push_posting docs' term pairs

module _ ⦃s : Bitmap⦄ where
  abbrev pub pairs_of : TermPosting s.Set → List (DocId × ℕ)
  pairs_of posting = zip (s.iter posting.docs) posting.tf

  unfoldable pub push_postings :
      List (List Bytes) → List (TermPosting s.Set) → Result (List (List Bytes))
  push_postings docs [] = ok docs
  push_postings docs (posting ∷ terms) =
      push_posting docs posting.term (pairs_of posting) >>= λ docs'. push_postings docs' terms

  unfoldable pub to_doc_terms : {F : Type 0} → Bm25 F s.Set → Result (List (List Bytes))
  to_doc_terms self = push_postings (replicate self.doc_count []) self.terms
