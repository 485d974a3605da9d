-- ===== src/Examples/Codecs.antt =====
-- The codecs at concrete inputs.
use link_r.Prelude.{
  ℕ, zero, suc, ◌≡◌, refl, none, some, List, [], ◌∷◌, ◌++◌, Bytes, codes, length, arith, true,
}
use link_r.Error.{ok, panic}
use link_r.Resource.ResourceKind.{markdown}
use link_r.Index.Meta.{DocMeta}
use link_r.Index.Meta.Codec
use link_r.Index.Meta.RoundTrip.{Fits, decode-encode_meta}
use link_r.Index.Graph
use link_r.Index.Graph.Resolve
use link_r.Index.Graph.Resolve.Transpose.{resolve-IsTransposed}
use link_r.Prelude.HashMap.{HashMap}
use link_r.Prelude.HashMap
use link_r.Prelude.HashSet.{count}
use link_r.Index.Graph.RoundTrip.{decode-encode_graph}
use link_r.Index.Sparse.{TermPosting, Bm25}
use link_r.Index.Sparse.Codec.{to_bytes, from_bytes}
use link_r.Index.Sparse.RoundTrip.{PostingFits, Fits as Bm25Fits, from_bytes-to_bytes}
use link_r.Index.Sparse.Score.{score}
use link_r.Index.Sparse.Unchecked.{from_bytes_unchecked}
use link_r.Examples.Setup.{float, bitmap}
use link_r.Examples.Instances.{byte_io, float_io}

abbrev pub doc : DocMeta
doc = record {
  url = codes "http://a.dev/docs";
  url_key = 9;
  kind = markdown;
  content_hash = 4;
  doc_len = 2;
  title = some (codes "Docs");
  snippet = [];
  lang = none;
  tags = codes "t" ∷ [];
  fetched_at_ms = 5;
  pinned = true;
  etag = none;
}

pub doc-Fits : Fits doc
doc-Fits = record {
  url = tt;
  url_key = omega arith;
  content_hash = omega arith;
  doc_len = omega arith;
  title = tt;
  snippet = tt;
  lang = tt;
  tag_count = omega arith;
  tags = (tt, tt);
  fetched_at_ms = omega arith;
  etag = tt;
}

decode-encode_meta_example : Codec.decode (Codec.encode (doc ∷ [])) true ≡ ok (doc ∷ [])
decode-encode_meta_example = decode-encode_meta (doc ∷ []) (omega arith) (doc-Fits, tt)

abbrev pub edges : List (List ℕ)
edges = (3 ∷ 4 ∷ []) ∷ [] ∷ []

decode-encode_graph_example : Graph.decode (Graph.encode edges) ≡ ok edges
decode-encode_graph_example =
    decode-encode_graph edges (omega arith)
      ((omega arith, (omega arith, (omega arith, tt))), ((omega arith, tt), tt))

abbrev by_url : HashMap ℕ ℕ
by_url = (3, 1) ∷ (4, 0) ∷ []

resolve-IsTransposed_example :
    (g : Resolve.Graph) × (Resolve.resolve edges by_url ≡ ok g)
    × ((a b : ℕ) → count b (Resolve.out_neighbors g a) ≡ count a (Resolve.in_neighbors g b))
    × ((a : ℕ) → count a (Resolve.out_neighbors g a) ≡ 0)
resolve-IsTransposed_example = resolve-IsTransposed edges by_url (omega arith)

-- A posting of the first document and of one that is not there.
abbrev pub posting : TermPosting (List ℕ)
posting = record { term = codes "a"; docs = 7 ∷ 0 ∷ []; tf = 2 ∷ 1 ∷ [] }

pub posting-PostingFits : PostingFits posting
unfolding link_r.Prelude.insert_asc
posting-PostingFits = record {
  term = tt;
  df = omega arith;
  docs = refl;
  bitmap = omega arith;
  tf = (omega arith, (omega arith, tt));
}

abbrev pub index : Bm25 ℕ (List ℕ)
index = record {
  k1 = 1;
  b = 1;
  avgdl = 3;
  doc_count = 1;
  doc_len = 3 ∷ [];
  terms = posting ∷ [];
  term_index = (codes "a", 0) ∷ [];
}

pub index-Fits : Bm25Fits index
unfolding link_r.Index.Sparse.index_terms HashMap.insert
index-Fits = record {
  doc_count = omega arith;
  lengths = refl;
  doc_len = (omega arith, tt);
  term_count = omega arith;
  postings = (posting-PostingFits, tt);
  dictionary = refl;
}

from_bytes-to_bytes_example : from_bytes (to_bytes index) ≡ ok index
from_bytes-to_bytes_example = from_bytes-to_bytes index index-Fits

abbrev beyond : Bm25 ℕ (List ℕ)
beyond = record index { terms = record posting { docs = 9 ∷ 7 ∷ [] } ∷ [] }

beyond-Fits : Bm25Fits beyond
unfolding link_r.Index.Sparse.index_terms HashMap.insert link_r.Prelude.insert_asc
beyond-Fits = record {
  doc_count = omega arith;
  lengths = refl;
  doc_len = (omega arith, tt);
  term_count = omega arith;
  postings = (
    record {
      term = tt;
      df = omega arith;
      docs = refl;
      bitmap = omega arith;
      tf = (omega arith, (omega arith, tt));
    },
    tt,
  );
  dictionary = refl;
}

from_bytes_unchecked_example :
    (from_bytes (to_bytes beyond) ≡ ok beyond) × (score beyond (codes "a" ∷ []) none 5 ≡ panic)
unfolding HashMap.get link_r.Prelude.insert_asc link_r.Index.Sparse.zip
from_bytes_unchecked_example =
    from_bytes_unchecked beyond (codes "a") 5 0 7 2 (record posting { docs = 9 ∷ 7 ∷ [] })
      ((9, 1) ∷ []) beyond-Fits (omega arith) (omega arith) refl refl refl (omega arith)
