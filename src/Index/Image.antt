-- ===== src/Index/Image.antt =====
-- src/index/mod.rs: the image of an index, `serialize_sections`, `Index::parse` and `assemble`.
pub mod Owner
pub mod Read
pub mod Parts
pub mod RoundTrip
use link_r.Prelude.{
  ℕ, ◌+◌, ◌*◌, ◌%◌, Bool, true, false, Option, none, some, List, [], ◌∷◌, ◌++◌, Bytes, any, length,
  replicate, ltb, if◌then◌else◌, ◌==◌, nat_eq, u32_mod, u64_mod,
}
use link_r.Prelude.HashMap
use link_r.Prelude.HashMap.{HashMap}
use link_r.Error.{Error, Result, ok, err, ◌>>=◌}
use link_r.External.{Bitmap, ByteIo, ByteAt, FloatIo, FloatBits, FloatMap, Zstd, Container, Section}
use link_r.Resource.{DocId}
use link_r.Metric.{Metric, as_tag, from_tag, normalizes}
use link_r.Index.Meta.{DocMeta}
use link_r.Index.Meta.Codec
use link_r.Index.Sparse.{Bm25}
use link_r.Index.Sparse.Codec.{to_bytes, from_bytes}
use link_r.Index.Graph
use link_r.Index.Graph.Resolve.{Graph, resolve}
use link_r.Index.Format
use link_r.Index.Format.{
  Header, IndexFile, SectionKind, as_u16, has_flag, meta_freshness, vectors_normalized, link_graph,
  section, section_range, zstd_section, zstd, write,
}
use link_r.Index.Store.{Backing, Index, owned, image, slice_of, dense_of}

pub record Parsed (F Set : Type 0) : Type 0 where
  pub dim : ℕ
  pub metric : Metric
  pub embedder_id : ℕ
  pub dense_off : ℕ
  pub dense_len : ℕ
  pub meta : List DocMeta
  pub bm25 : Bm25 F Set
  pub edges : List (List ℕ)

-- `usize` has 64 bits.
unfoldable pub checked_mul : ℕ → ℕ → Option ℕ
checked_mul a b = if ltb (a * b) u64_mod then some (a * b) else none

-- `doc_count * dim * size_of::<f32>()`
unfoldable pub expected_len : ℕ → ℕ → Result ℕ
expected_len doc_count dim = elim (checked_mul doc_count dim) [
  | none ↦ err (Error.format "dense size overflow")
  | some n ↦ elim (checked_mul n 4) [
    | none ↦ err (Error.format "dense size overflow")
    | some m ↦ ok m
  ]
]

-- An absent dense section reads as empty.
unfoldable pub dense_range : Option (ℕ × ℕ) → ℕ → Result (ℕ × ℕ)
dense_range (some r) expected = ok r
dense_range none expected =
    if expected == 0 then ok (0, 0) else err (Error.format "missing dense section")

unfoldable pub check_dense : ℕ × ℕ → ℕ → Result (ℕ × ℕ)
check_dense (doff, dlen) expected =
    if dlen == expected then ok (doff, dlen) else err (Error.format "dense section size mismatch")

abbrev pub or_missing : Option Bytes → Error → Result Bytes
or_missing none e = err e
or_missing (some bytes) e = ok bytes

unfoldable pub check_meta : List DocMeta → ℕ → Result (List DocMeta)
check_meta meta doc_count =
    if length meta == doc_count then ok meta else err (Error.format "metadata doc-count mismatch")

unfoldable pub check_edges : List (List ℕ) → ℕ → Result (List (List ℕ))
check_edges decoded doc_count =
    if length decoded == doc_count
    then ok decoded
    else err (Error.format "edges doc-count mismatch")

module _ ⦃io : ByteIo⦄ ⦃at : ByteAt⦄ ⦃z : Zstd⦄ ⦃c : Container⦄ where
  -- The link graph is optional.
  unfoldable pub edges_of : IndexFile c.Dir → ℕ → Result (List (List ℕ))
  edges_of parsed doc_count =
      if has_flag parsed.header.flags link_graph
      then (do
        found ← section parsed SectionKind.edges
        edge_bytes ← or_missing found (Error.format "LINK_GRAPH flag set but no Edges section")
        decoded ← Graph.decode edge_bytes
        check_edges decoded doc_count)
      else ok (replicate doc_count [])

  unfoldable pub meta_of : IndexFile c.Dir → ℕ → Result (List DocMeta)
  meta_of parsed doc_count = do
    found ← section parsed SectionKind.doc_meta
    meta_bytes ← or_missing found (Error.format "missing metadata section")
    meta ← Codec.decode meta_bytes (has_flag parsed.header.flags meta_freshness)
    check_meta meta doc_count

  unfoldable pub bm25_of :
      {F : Type 0} ⦃s : Bitmap⦄ ⦃fio : FloatIo F⦄ → IndexFile c.Dir → Result (Bm25 F s.Set)
  bm25_of parsed = do
    found ← section parsed SectionKind.bm25
    bm25_bytes ← or_missing found (Error.format "missing BM25 section")
    from_bytes bm25_bytes

  unfoldable pub parse :
      {F : Type 0} ⦃s : Bitmap⦄ ⦃fio : FloatIo F⦄ → Bytes → Result (Parsed F s.Set)
  parse bytes = do
    parsed ← Format.parse bytes
    expected ← expected_len parsed.header.doc_count parsed.header.dim
    range ← dense_range (section_range parsed SectionKind.dense) expected
    (doff, dlen) ← check_dense range expected
    meta ← meta_of parsed parsed.header.doc_count
    bm25 ← bm25_of parsed
    edges ← edges_of parsed parsed.header.doc_count
    ok (record {
      dim = parsed.header.dim;
      metric = from_tag parsed.header.metric;
      embedder_id = parsed.header.embedder_id;
      dense_off = doff;
      dense_len = dlen;
      meta = meta;
      bm25 = bm25;
      edges = edges;
    })

-- The map from keys to ids, the last document of a key's; `i as DocId` wraps.
unfoldable pub url_index_of : HashMap ℕ DocId → ℕ → List DocMeta → HashMap ℕ DocId
url_index_of index i [] = index
url_index_of index i (d ∷ meta) =
    url_index_of (HashMap.insert index d.url_key (i % u32_mod)) (i + 1) meta

unfoldable pub assemble : {F Set : Type 0} → Parsed F Set → Backing F → Result (Index F Set)
assemble p backing = do
  let url_index = url_index_of [] 0 p.meta
  graph ← resolve p.edges url_index
  ok (record {
    backing = backing;
    dim = p.dim;
    metric = p.metric;
    embedder_id = p.embedder_id;
    bm25 = p.bm25;
    meta = p.meta;
    edges = p.edges;
    graph = graph;
    by_url = url_index;
  })

-- `Index::open` of a file with these bytes: the dense range is cast once to validate it.
unfoldable pub open_image :
    {F : Type 0} ⦃io : ByteIo⦄ ⦃at : ByteAt⦄ ⦃z : Zstd⦄ ⦃c : Container⦄ ⦃s : Bitmap⦄
    ⦃fio : FloatIo F⦄ ⦃fm : FloatMap F⦄
    → Bytes
    → Result (Index F s.Set)
open_image file = do
  p ← parse file
  index ← assemble p (image file p.dense_off p.dense_len)
  blob ← dense_of index.backing
  ok index

abbrev pub is_nil : List ℕ → Bool
is_nil [] = true
is_nil (x ∷ l) = false

unfoldable pub has_edges : List (List ℕ) → Bool
has_edges [] = false
has_edges (e ∷ edges) = if is_nil e then has_edges edges else true

-- Distinct bits, so `|` is `+`.
unfoldable pub flags_of : Metric → List (List ℕ) → ℕ
flags_of metric edges =
    meta_freshness
    + ((if normalizes metric then vectors_normalized else 0)
        + (if has_edges edges then link_graph else 0))

module _ {F : Type 0} ⦃io : ByteIo⦄ ⦃fio : FloatIo F⦄ where
  unfoldable pub put_f32s : List F → Bytes
  put_f32s [] = []
  put_f32s (x ∷ dense) = fio.bytes_f32 x ++ put_f32s dense

  unfoldable pub header_of :
      ⦃fb : FloatBits F⦄ {Set : Type 0}
      → ℕ
      → Metric
      → ℕ
      → List DocMeta
      → List (List ℕ)
      → Bm25 F Set
      → Header
  header_of ⦃fb⦄ dim metric embedder_id docs edges bm25 = record {
    flags = flags_of metric edges;
    dim = dim % u32_mod;
    doc_count = length docs % u32_mod;
    metric = as_tag metric;
    embedder_id = embedder_id;
    bm25_k1_bits = fb.to_bits bm25.k1;
    bm25_b_bits = fb.to_bits bm25.b;
    avgdl_bits = fb.to_bits bm25.avgdl;
  }

  unfoldable pub sections_of :
      ⦃z : Zstd⦄ ⦃s : Bitmap⦄ → List DocMeta → List F → List (List ℕ) → Bm25 F s.Set → List Section
  sections_of docs dense_blob edge_lists index =
      record {
        kind = as_u16 SectionKind.doc_meta;
        flags = zstd;
        bytes = zstd_section (Codec.encode docs) 3;
      }
      ∷ record { kind = as_u16 SectionKind.dense; flags = 0; bytes = put_f32s dense_blob }
      ∷ record { kind = as_u16 SectionKind.bm25; flags = 0; bytes = to_bytes index }
      ∷ (if has_edges edge_lists
          then record {
            kind = as_u16 SectionKind.edges;
            flags = zstd;
            bytes = zstd_section (Graph.encode edge_lists) 3;
          }
            ∷ []
          else [])

  unfoldable pub serialize_sections :
      ⦃fb : FloatBits F⦄ ⦃z : Zstd⦄ ⦃c : Container⦄ ⦃s : Bitmap⦄
      → ℕ
      → Metric
      → ℕ
      → List DocMeta
      → List F
      → List (List ℕ)
      → Bm25 F s.Set
      → Bytes
  serialize_sections dim metric embedder_id docs dense edges bm25 =
      write (header_of dim metric embedder_id docs edges bm25) (sections_of docs dense edges bm25)
