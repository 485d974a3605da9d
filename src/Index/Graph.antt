-- ===== src/Index/Graph.antt =====
-- src/index/graph.rs: the codec of the link graph, by document the keys of its outbound links.
pub mod RoundTrip
pub mod Resolve
pub mod Related
pub mod Boosted
use link_r.Prelude.{
  ℕ, zero, suc, ◌%◌, List, [], ◌∷◌, ◌++◌, Bytes, length, u32_mod, if◌then◌else◌, ◌==◌, nat_eq,
}
use link_r.Error.{Error, Result, ok, err, panic, ◌>>=◌}
use link_r.External.{ByteIo}

module _ ⦃io : ByteIo⦄ where
  unfoldable pub encode_keys : List ℕ → Bytes
  encode_keys [] = []
  encode_keys (key ∷ keys) = io.bytes_u64 key ++ encode_keys keys

  unfoldable pub encode_docs : List (List ℕ) → Bytes
  encode_docs [] = []
  encode_docs (doc_edges ∷ edges) =
      io.bytes_u32 (length doc_edges % u32_mod) ++ (encode_keys doc_edges ++ encode_docs edges)

  unfoldable pub encode : List (List ℕ) → Bytes
  encode edges = io.bytes_u32 (length edges % u32_mod) ++ encode_docs edges

  unfoldable pub decode_keys : ℕ → Bytes → Result (List ℕ × Bytes)
  decode_keys zero r = ok ([], r)
  decode_keys (suc edge_count) r = do
    (key, r1) ← io.u64 r
    (list, r2) ← decode_keys edge_count r1
    ok (key ∷ list, r2)

  unfoldable pub decode_docs : ℕ → Bytes → Result (List (List ℕ) × Bytes)
  decode_docs zero r = ok ([], r)
  decode_docs (suc doc_count) r = do
    (edge_count, r1) ← io.u32 r
    (list, r2) ← decode_keys edge_count r1
    (out, r3) ← decode_docs doc_count r2
    ok (list ∷ out, r3)

  -- The error when bytes remain.
  unfoldable pub finish : List (List ℕ) × Bytes → Result (List (List ℕ))
  finish (out, r) =
      if length r == 0 then ok out else err (Error.format "trailing bytes in Edges section")

  unfoldable pub decode : Bytes → Result (List (List ℕ))
  decode bytes = do (doc_count, r) ← io.u32 bytes; read ← decode_docs doc_count r; finish read
