-- ===== src/Index/Image/RoundTrip.antt =====
-- An index that is saved reads back (src/index/mod.rs).
use link_r.Prelude.{
  ℕ, ◌+◌, ◌*◌, ◌-◌, ◌%◌, ◌<◌, ◌≤◌, ◌≡◌, refl, sym, ap, subst, ◌∙◌, false, List, Bytes, length,
  slice, All, ◌==◌, nat_eq, arith, u32_mod, u64_mod,
}
use link_r.Error.{ok}
use link_r.External.{Bitmap, ByteIo, ByteAt, FloatIo, FloatBits, Zstd, Container, Section}
use link_r.Metric.{Metric, as_tag, from_tag, from_tag-as_tag_metric}
use link_r.Index.Meta.{DocMeta}
use link_r.Index.Meta.Codec
use link_r.Index.Meta.RoundTrip.{Fits as MetaFits}
use link_r.Index.Sparse.{Bm25}
use link_r.Index.Sparse.Codec.{to_bytes}
use link_r.Index.Sparse.RoundTrip.{Fits as Bm25Fits}
use link_r.Index.Graph
use link_r.Index.Format
use link_r.Index.Format.{
  Header, IndexFile, SectionKind, as_u16, has_flag, meta_freshness, link_graph, section,
  section_range, zstd_section, zstd, write, owner, from_owner, magic, version,
}
use link_r.Index.Image.{
  Parsed, expected_len, dense_range, check_dense, edges_of, meta_of, bm25_of, parse, put_f32s,
  header_of, sections_of, serialize_sections,
}
use link_r.Index.Image.Owner.{HeaderFits, length-owner, from_owner-owner}
use link_r.Index.Image.Parts.{
  expected_len_ok, kinds_ascend, stored_meta, stored_bm25, stored_edges, stored_dense, dense_read,
  meta_of_ok, bm25_of_ok, edges_of_ok,
}
use link_r.Index.Image.Read.{
  Packs, section_compressed, section_plain, flags_of-freshness, flags_of-edges, flags_of_lt,
}

-- The parts of an index that can be saved: in the ranges of their types, of one number of documents,
-- and with sections that the reader does not refuse.
pub record Saves {F : Type 0} ⦃io : ByteIo⦄ ⦃fio : FloatIo F⦄ ⦃z : Zstd⦄ ⦃s : Bitmap⦄
    (dim embedder_id : ℕ) (docs : List DocMeta) (dense : List F) (edges : List (List ℕ))
    (bm25 : Bm25 F s.Set) : Type 0 where
  pub dim_fits : dim < u32_mod
  pub id_fits : embedder_id < u64_mod
  pub count_fits : length docs < u32_mod
  pub docs_fit : All MetaFits docs
  pub rows : length dense ≡ length docs * dim
  pub blob_fits : length docs * dim * 4 < u64_mod
  pub bm25_fits : Bm25Fits bm25
  pub bm25_bytes : (length (to_bytes bm25) == 0) ≡ false
  pub lists : length edges ≡ length docs
  pub edges_fit : All (λ doc. (length doc < u32_mod) × All (λ key. key < u64_mod) doc) edges
  pub docs_pack : Packs (Codec.encode docs)
  pub edges_pack : Packs (Graph.encode edges)

-- What was read is what was saved, and the dense range lies in the image and holds the vectors.
pub record IsRead {F : Type 0} ⦃io : ByteIo⦄ ⦃fio : FloatIo F⦄ ⦃s : Bitmap⦄ (dim : ℕ)
    (metric : Metric) (embedder_id : ℕ) (docs : List DocMeta) (dense : List F)
    (edges : List (List ℕ)) (bm25 : Bm25 F s.Set) (image : Bytes) (p : Parsed F s.Set)
    : Type 0 where
  pub same_dim : p.dim ≡ dim
  pub same_metric : p.metric ≡ metric
  pub same_id : p.embedder_id ≡ embedder_id
  pub same_meta : p.meta ≡ docs
  pub same_bm25 : p.bm25 ≡ bm25
  pub same_edges : p.edges ≡ edges
  pub inside : p.dense_off + p.dense_len ≤ length image
  pub vectors : slice p.dense_off p.dense_len image ≡ put_f32s dense

as_tag_lt : (m : Metric) → as_tag m < u32_mod
unfolding as_tag
as_tag_lt m = elim m as (λ k. as_tag k < u32_mod) [
  | Metric.cosine ↦ omega arith
  | Metric.dot ↦ omega arith
  | Metric.l2 ↦ omega arith
]

module _ ⦃io : ByteIo⦄ ⦃at : ByteAt⦄ ⦃c : Container⦄ where
  format_parse_ok :
      (header : Header) (sections : List Section) (d : c.Dir)
      → c.parse magic version (write header sections) ≡ ok d
      → from_owner (c.flags d) (c.owner d) ≡ ok header
      → Format.parse (write header sections)
        ≡ ok (record { header = header; bytes = write header sections; dir = d })
  unfolding Format.parse
  format_parse_ok header sections d parsed read = rw (parsed, read) refl

module _ {F : Type 0} ⦃io : ByteIo⦄ ⦃at : ByteAt⦄ ⦃fio : FloatIo F⦄ ⦃fb : FloatBits F⦄ ⦃z : Zstd⦄
    ⦃c : Container⦄ ⦃s : Bitmap⦄ where
  parse_parts :
      (image : Bytes) (file : IndexFile c.Dir) (expected off len : ℕ) (docs : List DocMeta)
      (edges : List (List ℕ)) (bm25 : Bm25 F s.Set)
      → Format.parse image ≡ ok file
      → expected_len file.header.doc_count file.header.dim ≡ ok expected
      → dense_range (section_range file SectionKind.dense) expected ≡ ok (off, len)
      → check_dense (off, len) expected ≡ ok (off, len)
      → meta_of file file.header.doc_count ≡ ok docs
      → bm25_of file ≡ ok bm25
      → edges_of file file.header.doc_count ≡ ok edges
      → parse image
        ≡ ok (record {
          dim = file.header.dim;
          metric = from_tag file.header.metric;
          embedder_id = file.header.embedder_id;
          dense_off = off;
          dense_len = len;
          meta = docs;
          bm25 = bm25;
          edges = edges;
        })
  unfolding parse
  parse_parts image file expected off len docs edges bm25 parsed size range checked meta sparse
        links =
      rw (parsed, size, range, checked, meta, sparse, links) refl

  -- An index that can be saved reads back from its image with all its parts.
  pub parse-serialize_sections :
      (dim : ℕ) (metric : Metric) (embedder_id : ℕ) (docs : List DocMeta) (dense : List F)
      (edges : List (List ℕ)) (bm25 : Bm25 F s.Set)
      → Saves dim embedder_id docs dense edges bm25
      → (p : Parsed F s.Set) × (parse
            (serialize_sections dim metric embedder_id docs dense edges bm25)
          ≡ ok p)
        × IsRead dim metric embedder_id docs dense edges bm25
            (serialize_sections dim metric embedder_id docs dense edges bm25)
            p
  unfolding serialize_sections write header_of
  parse-serialize_sections dim metric embedder_id docs dense edges bm25 w =
      let h = header_of dim metric embedder_id docs edges bm25 in
      let secs = sections_of docs dense edges bm25 in
      let image = c.finish magic version h.flags (owner h) secs in
      let n = length docs in
      let same_dim : dim % u32_mod ≡ dim = omega (arith, w.dim_fits) in
      let same_count : n % u32_mod ≡ n = omega (arith, w.count_fits) in
      let room : length (owner h) ≤ c.owner_len = omega (arith, length-owner h, c.owner_room) in
      let (d, parsed, flags, area, at_kind, spans) =
        c.parse-finish magic version h.flags (owner h) secs (flags_of_lt metric edges) room
          (kinds_ascend docs dense edges bm25) in
      let header_fits : HeaderFits h = record {
        dim = omega arith;
        doc_count = omega arith;
        metric = as_tag_lt metric;
        embedder_id = w.id_fits;
        bm25_k1_bits = fb.to_bits_lt bm25.k1;
        bm25_b_bits = fb.to_bits_lt bm25.b;
        avgdl_bits = fb.to_bits_lt bm25.avgdl;
      } in
      let header : from_owner (c.flags d) (c.owner d) ≡ ok h =
        rw (flags, area) (from_owner-owner h (c.owner_len - length (owner h)) header_fits) in
      let file : IndexFile c.Dir = record { header = h; bytes = image; dir = d } in
      let expected : expected_len (n % u32_mod) (dim % u32_mod) ≡ ok (n * dim * 4) =
        rw (same_count, same_dim) (expected_len_ok n dim w.blob_fits) in
      let size : length dense * 4 ≡ n * dim * 4 = ap (λ k. k * 4) w.rows in
      let (off, len, range, checked, inside, vectors) =
        dense_read d h image dense (n * dim * 4)
          (at_kind (as_u16 SectionKind.dense) ∙ stored_dense docs dense edges bm25) size
          (spans (as_u16 SectionKind.dense)) in
      let meta_read =
        section_compressed file SectionKind.doc_meta (Codec.encode docs)
          (at_kind (as_u16 SectionKind.doc_meta) ∙ stored_meta docs dense edges bm25) w.docs_pack in
      let meta =
        meta_of_ok file docs meta_read (flags_of-freshness metric edges) w.count_fits w.docs_fit in
      let bm25_read =
        section_plain file SectionKind.bm25 (to_bytes bm25)
          (at_kind (as_u16 SectionKind.bm25) ∙ stored_bm25 docs dense edges bm25 w.bm25_bytes) in
      let sparse = bm25_of_ok file bm25 bm25_read w.bm25_fits in
      let links =
        edges_of_ok file edges n (flags_of-edges metric edges)
          (λ linked.
            section_compressed file SectionKind.edges (Graph.encode edges)
              (at_kind (as_u16 SectionKind.edges) ∙ stored_edges docs dense edges bm25 linked)
              w.edges_pack)
          w.lists w.count_fits w.edges_fit in
      let p : Parsed F s.Set = record {
        dim = dim % u32_mod;
        metric = from_tag (as_tag metric);
        embedder_id = embedder_id;
        dense_off = off;
        dense_len = len;
        meta = docs;
        bm25 = bm25;
        edges = edges;
      } in
      (
        p,
        parse_parts image file (n * dim * 4) off len docs edges bm25
            (format_parse_ok h secs d parsed header) expected range checked
            (subst (λ k. meta_of file k ≡ ok docs) (sym same_count) meta) sparse
            (subst (λ k. edges_of file k ≡ ok edges) (sym same_count) links),
        record {
          same_dim = same_dim;
          same_metric = from_tag-as_tag_metric metric;
          same_id = refl;
          same_meta = refl;
          same_bm25 = refl;
          same_edges = refl;
          inside = inside;
          vectors = vectors;
        },
      )
