-- ===== src/Index/Image/Parts.antt =====
-- The parts of an index that is written, read one by one (src/index/mod.rs).
use link_r.Prelude.{
  ℕ, ◌+◌, ◌*◌, ◌<◌, ◌≤◌, ◌≡◌, refl, sym, ap, subst, ◌∙◌, inl, inr, true, false, none, some, List,
  [], ◌∷◌, Bytes, length, replicate, map, slice, ltb, nat_beq_iff, All, IsAscending, ◌==◌, nat_eq,
  arith, u32_mod, u64_mod, if◌then◌else◌, Bool-cases,
}
use link_r.Error.{ok}
use link_r.External.{Bitmap, ByteIo, ByteAt, FloatIo, FloatBits, Zstd, Container, stored}
use link_r.Index.Meta.{DocMeta}
use link_r.Index.Meta.Codec
use link_r.Index.Meta.RoundTrip.{Fits as MetaFits, decode-encode_meta}
use link_r.Index.Sparse.{Bm25}
use link_r.Index.Sparse.Codec.{to_bytes}
use link_r.Index.Sparse.RoundTrip.{Fits as Bm25Fits, from_bytes-to_bytes}
use link_r.Index.Graph
use link_r.Index.Graph.RoundTrip.{decode-encode_graph}
use link_r.Index.Format.{
  Header, IndexFile, SectionKind, as_u16, has_flag, meta_freshness, link_graph, section,
  section_range, zstd_section, zstd,
}
use link_r.Index.Image.{
  checked_mul, expected_len, dense_range, check_dense, check_meta, check_edges, edges_of, meta_of,
  bm25_of, has_edges, put_f32s, sections_of,
}
use link_r.Index.Image.Read.{
  found, lacks_section, has_section, zstd_section_nonempty, has_edges_none, length-put_f32s,
}

no_bytes : (l : Bytes) → length l ≡ 0 → l ≡ []
no_bytes [] h = refl
no_bytes (x ∷ l) h = absurd (omega arith)

checked_mul_ok : (a b : ℕ) → a * b < u64_mod → checked_mul a b ≡ some (a * b)
unfolding checked_mul
checked_mul_ok a b fits = let within : ltb (a * b) u64_mod ≡ true = ground arith in rw within refl

pub expected_len_ok : (n dim : ℕ) → n * dim * 4 < u64_mod → expected_len n dim ≡ ok (n * dim * 4)
unfolding expected_len
expected_len_ok n dim fits =
    rw (checked_mul_ok n dim (omega arith), expected_len, checked_mul_ok (n * dim) 4 fits) refl

module _ {F : Type 0} ⦃io : ByteIo⦄ ⦃at : ByteAt⦄ ⦃fio : FloatIo F⦄ ⦃fb : FloatBits F⦄ ⦃z : Zstd⦄
    ⦃c : Container⦄ ⦃s : Bitmap⦄ where
  pub kinds_ascend :
      (docs : List DocMeta) (dense : List F) (edges : List (List ℕ)) (bm25 : Bm25 F s.Set)
      → IsAscending (map (λ x. x.kind) (sections_of docs dense edges bm25))
  unfolding sections_of as_u16
  kinds_ascend docs dense edges bm25 = elim (Bool-cases (has_edges edges)) [
    | inl linked ↦ rw linked (
      (omega arith, (omega arith, (omega arith, tt))),
      ((omega arith, (omega arith, tt)), ((omega arith, tt), (tt, tt))),
    )
    | inr plain ↦ rw plain ((omega arith, (omega arith, tt)), ((omega arith, tt), (tt, tt)))
  ]

  -- What the writer stores of each kind.
  pub stored_meta :
      (docs : List DocMeta) (dense : List F) (edges : List (List ℕ)) (bm25 : Bm25 F s.Set)
      → stored (as_u16 SectionKind.doc_meta) (sections_of docs dense edges bm25)
        ≡ some (zstd, zstd_section (Codec.encode docs) 3)
  unfolding stored sections_of as_u16
  stored_meta docs dense edges bm25 = rw (zstd_section_nonempty (Codec.encode docs)) refl

  pub stored_bm25 :
      (docs : List DocMeta) (dense : List F) (edges : List (List ℕ)) (bm25 : Bm25 F s.Set)
      → (length (to_bytes bm25) == 0) ≡ false
      → stored (as_u16 SectionKind.bm25) (sections_of docs dense edges bm25)
        ≡ some (0, to_bytes bm25)
  unfolding stored sections_of as_u16
  stored_bm25 docs dense edges bm25 h = rw h refl

  pub stored_edges :
      (docs : List DocMeta) (dense : List F) (edges : List (List ℕ)) (bm25 : Bm25 F s.Set)
      → has_edges edges ≡ true
      → stored (as_u16 SectionKind.edges) (sections_of docs dense edges bm25)
        ≡ some (zstd, zstd_section (Graph.encode edges) 3)
  unfolding stored sections_of as_u16
  stored_edges docs dense edges bm25 h = rw (h, zstd_section_nonempty (Graph.encode edges)) refl

  pub stored_dense :
      (docs : List DocMeta) (dense : List F) (edges : List (List ℕ)) (bm25 : Bm25 F s.Set)
      → stored (as_u16 SectionKind.dense) (sections_of docs dense edges bm25)
        ≡ (if length (put_f32s dense) == 0 then none else some (0, put_f32s dense))
  unfolding stored sections_of as_u16
  stored_dense docs dense edges bm25 = elim (Bool-cases (has_edges edges)) [
    | inl linked ↦ rw linked refl
    | inr plain ↦ rw plain refl
  ]

  -- The dense section as the reader finds it.
  pub dense_read :
      (d : c.Dir) (header : Header) (image : Bytes) (dense : List F) (expected : ℕ)
      → found d image (as_u16 SectionKind.dense)
        ≡ (if length (put_f32s dense) == 0 then none else some (0, put_f32s dense))
      → length dense * 4 ≡ expected
      → ((c.has d (as_u16 SectionKind.dense) ≡ true)
          → (slice
                ((c.span d (as_u16 SectionKind.dense)).0)
                ((c.span d (as_u16 SectionKind.dense)).1)
                image
              ≡ c.section d image (as_u16 SectionKind.dense))
            × ((c.span d (as_u16 SectionKind.dense)).1
                ≡ length (c.section d image (as_u16 SectionKind.dense)))
            × ((c.span d (as_u16 SectionKind.dense)).0 + (c.span d (as_u16 SectionKind.dense)).1
                ≤ length image))
      → (off len : ℕ) × (dense_range
            (section_range (record { header = header; bytes = image; dir = d }) SectionKind.dense)
            expected
          ≡ ok (off, len))
        × (check_dense (off, len) expected ≡ ok (off, len))
        × (off + len ≤ length image)
        × (slice off len image ≡ put_f32s dense)
  unfolding dense_range check_dense section_range
  dense_read d header image dense expected e size spans =
      elim (Bool-cases (length (put_f32s dense) == 0)) [
        | inl empty ↦
            let gone = lacks_section d image (as_u16 SectionKind.dense) (rw empty at e) in
            let zero_len : expected ≡ 0 = ground (arith, length-put_f32s dense) in
            let nothing : put_f32s dense ≡ [] = no_bytes (put_f32s dense) (ground arith) in
            (0, 0, rw (gone, zero_len) refl, rw zero_len refl, omega arith, sym nothing)
        | inr full ↦
            let (here, flags, bytes) =
              has_section d image (as_u16 SectionKind.dense) 0 (put_f32s dense) (rw full at e) in
            let (cut, len, within) = spans here in
            let exact : (c.span d (as_u16 SectionKind.dense)).1 ≡ expected =
              len ∙ ap length bytes ∙ length-put_f32s dense ∙ size in
            let checked : ((c.span d (as_u16 SectionKind.dense)).1 == expected) ≡ true =
              (nat_beq_iff _ _).1 exact in
            (
              (c.span d (as_u16 SectionKind.dense)).0,
              (c.span d (as_u16 SectionKind.dense)).1,
              rw here refl,
              rw checked refl,
              within,
              cut ∙ bytes,
            )
      ]

  pub bm25_of_ok :
      (file : IndexFile c.Dir) (bm25 : Bm25 F s.Set)
      → section file SectionKind.bm25 ≡ ok (some (to_bytes bm25))
      → Bm25Fits bm25
      → bm25_of file ≡ ok bm25
  unfolding bm25_of
  bm25_of_ok file bm25 read fit = rw (read, from_bytes-to_bytes bm25 fit) refl

module _ ⦃io : ByteIo⦄ ⦃at : ByteAt⦄ ⦃z : Zstd⦄ ⦃c : Container⦄ where
  pub meta_of_ok :
      (file : IndexFile c.Dir) (docs : List DocMeta)
      → section file SectionKind.doc_meta ≡ ok (some (Codec.encode docs))
      → has_flag file.header.flags meta_freshness ≡ true
      → length docs < u32_mod
      → All MetaFits docs
      → meta_of file (length docs) ≡ ok docs
  unfolding meta_of check_meta
  meta_of_ok file docs read flag small fit =
      let counted : (length docs == length docs) ≡ true = (nat_beq_iff _ _).1 refl in
      rw (read, flag, decode-encode_meta docs small fit, counted) refl

  pub edges_of_ok :
      (file : IndexFile c.Dir) (edges : List (List ℕ)) (n : ℕ)
      → has_flag file.header.flags link_graph ≡ has_edges edges
      → (has_edges edges ≡ true → section file SectionKind.edges ≡ ok (some (Graph.encode edges)))
      → length edges ≡ n
      → n < u32_mod
      → All (λ doc. (length doc < u32_mod) × All (λ key. key < u64_mod) doc) edges
      → edges_of file n ≡ ok edges
  unfolding edges_of check_edges
  edges_of_ok file edges n flag read len small fit = elim (Bool-cases (has_edges edges)) [
    | inl linked ↦
        let counted : (length edges == n) ≡ true = (nat_beq_iff _ _).1 len in
        rw (flag, linked, read linked, decode-encode_graph edges (omega arith) fit, counted) refl
    | inr plain ↦
        rw (flag, plain)
          (ap ok (subst (λ k. replicate k [] ≡ edges) len (sym (has_edges_none edges plain))))
  ]
