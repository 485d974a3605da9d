-- ===== src/Index/Sparse/RoundTrip.antt =====
-- The BM25 section reads back as it was written, whatever documents its postings name
-- (src/index/sparse.rs).
use mathlib.Core.List.{append_assoc}
use link_r.Prelude.{
  ℕ, ◌%◌, ◌<◌, ◌≡◌, refl, List, [], ◌∷◌, ◌++◌, Bytes, All, length, map, append-nil, u32_mod, arith,
  ◌==◌, nat_eq, true, nat_beq_iff, bytes_eq,
}
use link_r.Error.{ok}
use link_r.External.{Bitmap, ByteIo, FloatIo}
use link_r.Index.Sparse.{TermPosting, Bm25, index_terms}
use link_r.Index.Sparse.Codec.{
  put_u32s, put_u16s, get_u32s, get_u16s, put_posting, put_postings, roaring_of, check_df,
  get_posting, get_postings, to_bytes, from_bytes, term_of,
}

-- The columns of a posting are in the ranges of their types and of one length.
pub record PostingFits ⦃s : Bitmap⦄ ⦃io : ByteIo⦄ (p : TermPosting s.Set) : Type 0 where
  pub term : io.IsText p.term
  pub df : length p.tf < u32_mod
  pub docs : s.len p.docs ≡ length p.tf
  pub bitmap : length (s.serialize p.docs) < u32_mod
  pub tf : All (λ f. f < 65536) p.tf

-- The index is what `build` makes: one length for each document, and the dictionary of its terms.
pub record Fits {F : Type 0} ⦃s : Bitmap⦄ ⦃io : ByteIo⦄ (x : Bm25 F s.Set) : Type 0 where
  pub doc_count : x.doc_count < u32_mod
  pub lengths : length x.doc_len ≡ x.doc_count
  pub doc_len : All (λ n. n < u32_mod) x.doc_len
  pub term_count : length x.terms < u32_mod
  pub postings : All PostingFits x.terms
  pub dictionary : index_terms [] 0 (map term_of x.terms) ≡ x.term_index

module _ ⦃io : ByteIo⦄ where
  get_u32s-put_u32s :
      (l : List ℕ) (rest : Bytes)
      → All (λ n. n < u32_mod) l
      → get_u32s (length l) (put_u32s l ++ rest) ≡ ok (l, rest)
  unfolding get_u32s put_u32s
  get_u32s-put_u32s [] rest fit = refl
  get_u32s-put_u32s (n ∷ l) rest (small, fit) =
      rw
        (
          append_assoc (io.bytes_u32 n) (put_u32s l) rest,
          io.u32-bytes n (put_u32s l ++ rest) small,
          get_u32s-put_u32s l rest fit,
        )
        refl

  get_u16s-put_u16s :
      (l : List ℕ) (rest : Bytes)
      → All (λ n. n < 65536) l
      → get_u16s (length l) (put_u16s l ++ rest) ≡ ok (l, rest)
  unfolding get_u16s put_u16s
  get_u16s-put_u16s [] rest fit = refl
  get_u16s-put_u16s (n ∷ l) rest (small, fit) =
      rw
        (
          append_assoc (io.bytes_u16 n) (put_u16s l) rest,
          io.u16-bytes n (put_u16s l ++ rest) small,
          get_u16s-put_u16s l rest fit,
        )
        refl

module _ ⦃s : Bitmap⦄ ⦃io : ByteIo⦄ where
  roaring_of-serialize : (docs : s.Set) → roaring_of (s.serialize docs) ≡ ok docs
  unfolding roaring_of
  roaring_of-serialize docs = rw (s.deserialize-serialize docs, roaring_of) refl

  check_df_ok : (docs : s.Set) (df : ℕ) → s.len docs ≡ df → check_df docs df ≡ ok docs
  unfolding check_df
  check_df_ok docs df e =
      let counted : (s.len docs == df) ≡ true = (nat_beq_iff (s.len docs) df).1 e in
      rw (counted, check_df) refl

  get_posting-put_posting :
      (p : TermPosting s.Set) (rest : Bytes)
      → PostingFits p
      → get_posting (put_posting p ++ rest) ≡ ok (p, rest)
  unfolding get_posting put_posting
  get_posting-put_posting p rest fit =
      let same : s.len p.docs % u32_mod ≡ length p.tf = omega (arith, fit.docs, fit.df) in
      let bitmap = s.serialize p.docs in
      rw
        (
          same,
          append_assoc (io.bytes_blob p.term)
              (io.bytes_u32 (length p.tf) ++ (io.bytes_blob bitmap ++ put_u16s p.tf)) rest,
          append_assoc (io.bytes_u32 (length p.tf)) (io.bytes_blob bitmap ++ put_u16s p.tf) rest,
          append_assoc (io.bytes_blob bitmap) (put_u16s p.tf) rest,
          io.blob-bytes p.term
              (io.bytes_u32 (length p.tf) ++ (io.bytes_blob bitmap ++ (put_u16s p.tf ++ rest)))
              fit.term,
          io.u32-bytes (length p.tf) (io.bytes_blob bitmap ++ (put_u16s p.tf ++ rest)) fit.df,
          io.len_prefixed-bytes bitmap (put_u16s p.tf ++ rest) fit.bitmap,
          roaring_of-serialize p.docs,
          check_df_ok p.docs (length p.tf) fit.docs,
          get_u16s-put_u16s p.tf rest fit.tf,
        )
        refl

  get_postings-put_postings :
      (terms : List (TermPosting s.Set)) (rest : Bytes)
      → All PostingFits terms
      → get_postings (length terms) (put_postings terms ++ rest) ≡ ok (terms, rest)
  unfolding get_postings put_postings
  get_postings-put_postings [] rest fit = refl
  get_postings-put_postings (p ∷ terms) rest (small, fit) =
      rw
        (
          append_assoc (put_posting p) (put_postings terms) rest,
          get_posting-put_posting p (put_postings terms ++ rest) small,
          get_postings-put_postings terms rest fit,
        )
        refl

module _ {F : Type 0} ⦃s : Bitmap⦄ ⦃io : ByteIo⦄ ⦃fio : FloatIo F⦄ where
  -- A BM25 index whose columns are in the ranges of their types decodes from its encoding.
  pub from_bytes-to_bytes : (x : Bm25 F s.Set) → Fits x → from_bytes (to_bytes x) ≡ ok x
  unfolding from_bytes to_bytes
  from_bytes-to_bytes x fit =
      let same : length x.terms % u32_mod ≡ length x.terms = omega (arith, fit.term_count) in
      let n = length x.terms in
      let body = put_u32s x.doc_len ++ put_postings x.terms in
      rw
        (
          same,
          fio.f32-bytes x.k1 (
              fio.bytes_f32 x.b
              ++ (fio.bytes_f32 x.avgdl ++ (io.bytes_u32 x.doc_count ++ (io.bytes_u32 n ++ body)))),
          fio.f32-bytes x.b
              (fio.bytes_f32 x.avgdl ++ (io.bytes_u32 x.doc_count ++ (io.bytes_u32 n ++ body))),
          fio.f32-bytes x.avgdl (io.bytes_u32 x.doc_count ++ (io.bytes_u32 n ++ body)),
          io.u32-bytes x.doc_count (io.bytes_u32 n ++ body) fit.doc_count,
          io.u32-bytes n body fit.term_count,
          ← fit.lengths,
          get_u32s-put_u32s x.doc_len (put_postings x.terms) fit.doc_len,
          ← append-nil (put_postings x.terms),
          get_postings-put_postings x.terms [] fit.postings,
          fit.dictionary,
        )
        refl
