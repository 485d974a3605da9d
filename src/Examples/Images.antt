-- ===== src/Examples/Images.antt =====
-- The image of an index at concrete inputs.
use link_r.Prelude.{
  ℕ, ◌*◌, ◌≡◌, refl, ◌&&◌, List, [], ◌∷◌, Bytes, codes, leb, arith, if◌then◌else◌, nat_eq,
}
use link_r.Error.{Error, ok, err}
use link_r.Index.Format.{max_zstd_ratio, max_decompressed, decompressed, zstd_section}
use link_r.Index.Format.Sections.{decompressed-zstd_section}
use link_r.Resource.{as_tag}
use link_r.Metric.{cosine}
use link_r.Index.Meta.Codec
use link_r.Index.Graph
use link_r.Index.Sparse.Codec.{to_bytes}
use link_r.Index.Image.{Parsed, parse, serialize_sections}
use link_r.Index.Image.Read.{Packs}
use link_r.Index.Image.RoundTrip.{Saves, IsRead, parse-serialize_sections}
use link_r.Examples.Setup.{bitmap}
use link_r.Examples.Codecs.{doc, doc-Fits, index, index-Fits}
use link_r.Examples.Instances.{byte_io, byte_at, float_io, float_bits, zstd}
use link_r.Examples.Containers.{container}

decompressed-zstd_section_example : decompressed (zstd_section (codes "abc") 3) ≡ (
    if leb 3 (3 * max_zstd_ratio) && leb 3 max_decompressed
    then ok (codes "abc")
    else err (Error.format "zstd section declares too many bytes"))
decompressed-zstd_section_example = decompressed-zstd_section (codes "abc") 3 (omega arith)

abbrev edge_lists : List (List ℕ)
edge_lists = (3 ∷ 4 ∷ []) ∷ []

doc-Packs : Packs (Codec.encode (doc ∷ []))
unfolding Codec.encode Codec.put_docs Codec.put_doc Codec.put_opt_str Codec.put_tags
    Codec.put_freshness as_tag
doc-Packs = record { ratio = omega arith; max = omega arith }

edges-Packs : Packs (Graph.encode edge_lists)
unfolding Graph.encode Graph.encode_docs Graph.encode_keys
edges-Packs = record { ratio = omega arith; max = omega arith }

saves : Saves 2 7 (doc ∷ []) (5 ∷ 6 ∷ []) edge_lists index
unfolding to_bytes link_r.Index.Sparse.Codec.put_u32s link_r.Index.Sparse.Codec.put_postings
    link_r.Index.Sparse.Codec.put_posting link_r.Index.Sparse.Codec.put_u16s
saves = record {
  dim_fits = omega arith;
  id_fits = omega arith;
  count_fits = omega arith;
  docs_fit = (doc-Fits, tt);
  rows = refl;
  blob_fits = omega arith;
  bm25_fits = index-Fits;
  bm25_bytes = refl;
  lists = refl;
  edges_fit = ((omega arith, (omega arith, (omega arith, tt))), tt);
  docs_pack = doc-Packs;
  edges_pack = edges-Packs;
}

abbrev saved : Bytes
saved = serialize_sections 2 cosine 7 (doc ∷ []) (5 ∷ 6 ∷ []) edge_lists index

parse-serialize_sections_example :
    (p : Parsed ℕ (List ℕ)) × (parse saved ≡ ok p)
    × IsRead 2 cosine 7 (doc ∷ []) (5 ∷ 6 ∷ []) edge_lists index saved p
parse-serialize_sections_example =
    parse-serialize_sections 2 cosine 7 (doc ∷ []) (5 ∷ 6 ∷ []) edge_lists index saves
