-- ===== src/Lib.antt =====
-- Models and proofs for link-r, an index of links to remote documents.
--
-- A crawl fetches pages from a root URL on, and each page becomes a document of the index under
-- the key of its canonical URL. The parts modelled here, by file of the repository:
--
-- - Prelude: lists, slices, maps and sets over the native numbers, equality tests, sorting by
--   insertion with its order and occurrence counts (SortBy, Ascending, Occurrences).
-- - External: the url crate, the hasher, the byte codec and reader, the container and the bitmaps of
--   graph-r, zstd, floats and their bits as interfaces. A hasher's law is that feeding chunks feeds
--   their concatenation; a bitmap's are those of a set; the codec's, zstd's and the container's are
--   that a read gives what was written. Floats have only the operations, and a test whether Rust's
--   sort panics on a list with scores; IsOrdered says that there is no NaN among them, so that the
--   scores are ordered and no sort panics.
-- - Error: `Error`, `is_retriable` and `Result` of src/error.rs. A result may also be a panic.
-- - UrlKey: `canonical_chunks`, `canonicalize`, `fmt_u16` and `UrlKeyExt::from_url` of
--   src/url_key.rs. The sink closure is a fold over a state.
-- - Resource, Metric: the enums, tags and classifications of src/resource.rs and src/metric.rs.
-- - Query: `PreparedQuery`, `RankParams`, `Fusion`, `Hit` and `Hits` of src/query.rs.
-- - Index/Meta: `DocMeta::path`, `Filter` and, in Codec, `encode` and `decode` of
--   src/index/meta.rs.
-- - Index/Ranking, Index/Fuse: ranked lists, and `reciprocal_rank_fusion` of src/index/fuse.rs.
-- - Index/Dense: `dot`, `similarity` and the normalizations of src/index/dense.rs; TopK has the scan
--   `top_k`. `BinaryHeap` is its elements in the order of `Scored::cmp`.
-- - Index/Sparse: `Bm25` of src/index/sparse.rs: `build` with both accumulations of the counts, and
--   `to_doc_terms`; Score has `score`, Codec has `to_bytes` and `from_bytes`.
-- - Index/Graph: `encode`, `decode`, `Graph::resolve`, the neighbors, `Graph::related` and
--   `Graph::boosted` of src/index/graph.rs.
-- - Index/Builder: `IndexBuilder` of src/index/builder.rs: `new`, `upsert`, `touch`, `set_pinned`,
--   `remove` and `is_unchanged`. The mutable fields are a record that each operation returns; an
--   index out of range panics. WellFormed has the invariant and the view of a builder as a map
--   from keys to entries, which the refinement theorems speak of.
-- - Index/Store, Index/Search: `Index` of src/index/mod.rs: `from_owned`, `into_builder`, `related`
--   and `search_prepared`, and `IndexBuilder::build`. An index borrows its dense vectors from an
--   image or owns them.
-- - Index/Format: the header, the sections, and the bounds on compressed ones, of
--   src/index/format.rs.
-- - Index/Image: `serialize_sections`, `Index::parse`, `assemble` and `open` of src/index/mod.rs;
--   a file is its bytes.
-- - Crawl/Scope, Crawl/Pacer, Crawl/Fetch: `CrawlScope`, the filters, `Pacer` and `fetch_one` of
--   src/source/crawl.rs. Times are milliseconds.
-- - Crawl/State, Crawl/Handler, Crawl/Steps: `CrawlSource::discover` of src/source/crawl.rs. The
--   locals of the stream body are the state; a round of the fill loop and the handling of an
--   outcome are functions; a run is a sequence of them in which any fetch in flight may complete.
--   Verdicts of robots.txt, the clock, outcomes and the two link scanners are inputs.
-- - Crawl/Source: the configuration of `CrawlSource` in src/source/crawl.rs.
-- - Auth: `StaticTokenAuth` of src/auth/static_token.rs, `Credential` of src/auth/mod.rs and
--   `GithubAuth` of src/source/github.rs.
-- - Extract: `Descriptor::into_document` of src/extract/mod.rs and the title in `extract_plain` of
--   src/extract/markdown.rs (Plain, Title). There a string is its characters, and indexes count UTF-8 bytes.
-- - Examples: the theorems at concrete inputs, with instances of the interfaces.
--
-- A crawl hands its pages to the builder; the builder builds an index, whose BM25 part, link graph
-- and dense vectors answer a search, each with a ranked list, which fusion merges and the boost by
-- connections reorders. The index is saved as an image of sections and parsed back, and
-- `into_builder` makes a builder of it again.
--
-- Integers are natural numbers; `as u32` is written as a remainder by 2^32, and the theorems on
-- the builder, the index and the filters ask for at most 2^32 documents. A `usize` has 64 bits.
-- Loops recurse on their lists; the retry loop recurses on the retries left and the digit loop on
-- the bytes left of its buffer, and both are enough by theorem or by construction. Maps are
-- association lists, in whose order their iterators run; the sorts of the library are sorting by
-- insertion, which orders as they do. Memory does not run out; a request for more than isize::MAX
-- bytes panics where the size comes from a caller, as for the heap of `top_k`.
--
-- Not modelled: quantization and the hash embedder, which are float arithmetic; writing the file of
-- an index; the facade, HTTP, the GitHub and filesystem sources, the refresh of OAuth tokens, the remote
-- index and the knowledge base, which are mostly input and output and calls of other crates; the
-- rest of the extraction, which drives parsers of other crates; the bindings.
pub mod Prelude
pub mod Error
pub mod External
pub mod UrlKey
pub mod Resource
pub mod Metric
pub mod Index
pub mod Query
pub mod Crawl
pub mod Auth
pub mod Extract
pub mod Examples
