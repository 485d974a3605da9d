-- ===== src/Index/Store.antt =====
-- src/index/mod.rs: the index, from its builder and back. A mapped dense blob is a range of an
-- image, which graph-r reinterprets as floats.
pub mod Consistent
use link_r.Prelude.{
  ℕ, ◌+◌, Bool, Option, none, some, List, [], ◌∷◌, Bytes, length, slice, leb, if◌then◌else◌, nat_eq,
  map, is_some,
}
use link_r.Prelude.HashMap
use link_r.Prelude.HashMap.{HashMap}
use link_r.Error.{Result, ok, panic, ◌>>=◌}
use link_r.External.{Float, FloatMap, Bitmap}
use link_r.Resource.{DocId}
use link_r.Metric.{Metric}
use link_r.Query
use link_r.Query.{Hits}
use link_r.Index.Meta.{DocMeta}
use link_r.Index.Builder.{IndexBuilder}
use link_r.Index.Sparse.{Bm25, to_doc_terms}
use link_r.Index.Sparse
use link_r.Index.Graph.Resolve.{Graph, resolve}
use link_r.Index.Graph.Related

pub data Backing (F : Type 0) : Type 0 where
  owned : List F → Backing F
  image : Bytes → ℕ → ℕ → Backing F

pub record Index (F Set : Type 0) : Type 0 where
  pub backing : Backing F
  pub dim : ℕ
  pub metric : Metric
  pub embedder_id : ℕ
  pub bm25 : Bm25 F Set
  pub meta : List DocMeta
  pub edges : List (List ℕ)
  pub graph : Graph
  pub by_url : HashMap ℕ DocId

-- The complete original file, when there is one.
unfoldable image_of : {F : Type 0} → Backing F → Option Bytes
image_of (owned v) = none
image_of (image file dense_off dense_len) = some file

module _ {F Set : Type 0} where
  -- `Graph::resolve` indexes lists, so it may panic.
  unfoldable pub from_owned :
      ℕ
      → Metric
      → ℕ
      → Bm25 F Set
      → List DocMeta
      → List F
      → List (List ℕ)
      → HashMap ℕ DocId
      → Result (Index F Set)
  from_owned dim metric embedder_id bm25 meta dense edges url_index = do
    graph ← resolve edges url_index
    ok (record {
      backing = owned dense;
      dim = dim;
      metric = metric;
      embedder_id = embedder_id;
      bm25 = bm25;
      meta = meta;
      edges = edges;
      graph = graph;
      by_url = url_index;
    })

  unfoldable pub len : Index F Set → ℕ
  len self = length self.meta

  unfoldable pub contains : Index F Set → ℕ → Bool
  contains self key = is_some (HashMap.get self.by_url key)

-- `&bytes[off..off + len]`, which panics out of range.
unfoldable pub slice_of : Bytes → ℕ → ℕ → Result Bytes
slice_of bytes off len = if leb (off + len) (length bytes) then ok (slice off len bytes) else panic

module _ {F : Type 0} ⦃fm : FloatMap F⦄ where
  unfoldable pub dense_of : Backing F → Result (List F)
  dense_of (owned v) = ok v
  dense_of (image file dense_off dense_len) = slice_of file dense_off dense_len >>= fm.cast_f32

  unfoldable pub dense : {Set : Type 0} → Index F Set → Result (List F)
  dense self = dense_of self.backing

  unfoldable pub into_builder : ⦃s : Bitmap⦄ → Index F s.Set → Result (IndexBuilder F)
  into_builder self = do
    doc_terms ← to_doc_terms self.bm25
    dense ← dense_of self.backing
    ok (record {
      dim = self.dim;
      metric = self.metric;
      embedder_id = self.embedder_id;
      k1 = self.bm25.k1;
      b = self.bm25.b;
      meta = self.meta;
      dense = dense;
      doc_terms = doc_terms;
      edges = self.edges;
      url_index = self.by_url;
    })

-- `IndexBuilder::build`; `to_index` is the same on a copy. `parallel` is the crate feature.
unfoldable pub build :
    {F : Type 0} ⦃f : Float F⦄ ⦃s : Bitmap⦄ → Bool → IndexBuilder F → Result (Index F s.Set)
build parallel self = do
  bm25 ← Sparse.build parallel self.doc_terms self.k1 self.b
  from_owned self.dim self.metric self.embedder_id bm25 self.meta self.dense self.edges
      self.url_index

-- `(id, score as f32)`
abbrev to_float : {F : Type 0} ⦃f : Float F⦄ → DocId × ℕ → DocId × F
to_float ⦃f⦄ (id, score) = (id, f.from_nat score)

-- `Index::related`.
unfoldable pub related : {F Set : Type 0} ⦃f : Float F⦄ → Index F Set → ℕ → ℕ → Hits F
related self url_key k = elim (HashMap.get self.by_url url_key) [
  | none ↦ Query.new self.meta []
  | some doc ↦ Query.new self.meta (map to_float (Related.related self.graph doc k))
]
