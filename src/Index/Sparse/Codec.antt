-- ===== src/Index/Sparse/Codec.antt =====
-- src/index/sparse.rs: the BM25 section, `to_bytes` and `from_bytes`.
use link_r.Prelude.{
  ℕ, zero, suc, ◌%◌, none, some, List, [], ◌∷◌, ◌++◌, Bytes, length, map, u32_mod, if◌then◌else◌,
  ◌==◌, nat_eq,
}
use link_r.Error.{Error, Result, ok, err, ◌>>=◌}
use link_r.External.{Bitmap, ByteIo, FloatIo}
use link_r.Index.Sparse.{TermPosting, Bm25, index_terms}

module _ ⦃io : ByteIo⦄ where
  unfoldable pub put_u32s : List ℕ → Bytes
  put_u32s [] = []
  put_u32s (n ∷ l) = io.bytes_u32 n ++ put_u32s l

  unfoldable pub put_u16s : List ℕ → Bytes
  put_u16s [] = []
  put_u16s (n ∷ l) = io.bytes_u16 n ++ put_u16s l

  unfoldable pub get_u32s : ℕ → Bytes → Result (List ℕ × Bytes)
  get_u32s zero r = ok ([], r)
  get_u32s (suc count) r = do (n, r1) ← io.u32 r; (l, r2) ← get_u32s count r1; ok (n ∷ l, r2)

  unfoldable pub get_u16s : ℕ → Bytes → Result (List ℕ × Bytes)
  get_u16s zero r = ok ([], r)
  get_u16s (suc count) r = do (n, r1) ← io.u16 r; (l, r2) ← get_u16s count r1; ok (n ∷ l, r2)

module _ ⦃s : Bitmap⦄ where
  -- The bitmap, or the error of a failed decode; the error text's detail is left out.
  unfoldable pub roaring_of : Bytes → Result s.Set
  roaring_of bytes = elim (s.deserialize bytes) [
    | none ↦ err (Error.format "roaring decode")
    | some docs ↦ ok docs
  ]

  unfoldable pub check_df : s.Set → ℕ → Result s.Set
  check_df docs df = if s.len docs == df then ok docs else err (Error.format "BM25 df mismatch")

module _ ⦃s : Bitmap⦄ ⦃io : ByteIo⦄ where
  unfoldable pub put_posting : TermPosting s.Set → Bytes
  put_posting posting =
      io.bytes_blob posting.term
      ++ (io.bytes_u32 (s.len posting.docs % u32_mod)
          ++ (io.bytes_blob (s.serialize posting.docs) ++ put_u16s posting.tf))

  unfoldable pub put_postings : List (TermPosting s.Set) → Bytes
  put_postings [] = []
  put_postings (posting ∷ terms) = put_posting posting ++ put_postings terms

  unfoldable pub get_posting : Bytes → Result (TermPosting s.Set × Bytes)
  get_posting r = do
    (term, r1) ← io.blob r
    (df, r2) ← io.u32 r1
    (roaring_bytes, r3) ← io.len_prefixed r2
    decoded ← roaring_of roaring_bytes
    docs ← check_df decoded df
    (tf, r4) ← get_u16s df r3
    ok (record { term = term; docs = docs; tf = tf }, r4)

  unfoldable pub get_postings : ℕ → Bytes → Result (List (TermPosting s.Set) × Bytes)
  get_postings zero r = ok ([], r)
  get_postings (suc term_count) r = do
    (posting, r1) ← get_posting r
    (terms, r2) ← get_postings term_count r1
    ok (posting ∷ terms, r2)

abbrev pub term_of : {Set : Type 0} → TermPosting Set → Bytes
term_of p = p.term

module _ {F : Type 0} ⦃s : Bitmap⦄ ⦃io : ByteIo⦄ ⦃fio : FloatIo F⦄ where
  unfoldable pub to_bytes : Bm25 F s.Set → Bytes
  to_bytes self =
      fio.bytes_f32 self.k1
      ++ (fio.bytes_f32 self.b
          ++ (fio.bytes_f32 self.avgdl
              ++ (io.bytes_u32 self.doc_count
                  ++ (io.bytes_u32 (length self.terms % u32_mod)
                      ++ (put_u32s self.doc_len ++ put_postings self.terms)))))

  -- Bytes that remain are not looked at.
  unfoldable pub from_bytes : Bytes → Result (Bm25 F s.Set)
  from_bytes bytes = do
    (k1, r1) ← fio.f32 bytes
    (b, r2) ← fio.f32 r1
    (avgdl, r3) ← fio.f32 r2
    (doc_count, r4) ← io.u32 r3
    (term_count, r5) ← io.u32 r4
    (doc_len, r6) ← get_u32s doc_count r5
    (terms, r7) ← get_postings term_count r6
    ok (record {
      k1 = k1;
      b = b;
      avgdl = avgdl;
      doc_count = doc_count;
      doc_len = doc_len;
      terms = terms;
      term_index = index_terms [] 0 (map term_of terms);
    })
