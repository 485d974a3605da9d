-- ===== src/Index/Graph/RoundTrip.antt =====
-- The link graph reads back as it was written (src/index/graph.rs).
use mathlib.Core.List.{append_assoc}
use link_r.Prelude.{
  ℕ, ◌%◌, ◌<◌, ◌≡◌, refl, List, [], ◌∷◌, ◌++◌, Bytes, All, length, append-nil, u32_mod, u64_mod,
  arith,
}
use link_r.Error.{ok}
use link_r.External.{ByteIo}
use link_r.Index.Graph.{encode_keys, encode_docs, encode, decode_keys, decode_docs, decode, finish}

-- Counts that fit the `u32` before them, and keys that fit a `u64`.
abbrev pub Fits : List (List ℕ) → Type 0
Fits edges = All (λ doc. (length doc < u32_mod) × All (λ key. key < u64_mod) doc) edges

module _ ⦃io : ByteIo⦄ where
  decode_keys-encode_keys :
      (keys : List ℕ) (rest : Bytes)
      → All (λ key. key < u64_mod) keys
      → decode_keys (length keys) (encode_keys keys ++ rest) ≡ ok (keys, rest)
  unfolding decode_keys encode_keys
  decode_keys-encode_keys [] rest fit = refl
  decode_keys-encode_keys (key ∷ keys) rest (small, fit) =
      rw
        (
          append_assoc (io.bytes_u64 key) (encode_keys keys) rest,
          io.u64-bytes key (encode_keys keys ++ rest) small,
          decode_keys-encode_keys keys rest fit,
        )
        refl

  decode_docs-encode_docs :
      (edges : List (List ℕ)) (rest : Bytes)
      → Fits edges
      → decode_docs (length edges) (encode_docs edges ++ rest) ≡ ok (edges, rest)
  unfolding decode_docs encode_docs
  decode_docs-encode_docs [] rest fit = refl
  decode_docs-encode_docs (doc ∷ edges) rest ((small, keys), fit) =
      let same : length doc % u32_mod ≡ length doc = omega arith in
      rw
        (
          same,
          append_assoc (io.bytes_u32 (length doc)) (encode_keys doc ++ encode_docs edges) rest,
          append_assoc (encode_keys doc) (encode_docs edges) rest,
          io.u32-bytes (length doc) (encode_keys doc ++ (encode_docs edges ++ rest)) small,
          decode_keys-encode_keys doc (encode_docs edges ++ rest) keys,
          decode_docs-encode_docs edges rest fit,
        )
        refl

  -- A link graph whose counts fit a `u32` and whose keys fit a `u64` decodes from its encoding.
  pub decode-encode_graph :
      (edges : List (List ℕ))
      → length edges < u32_mod
      → All (λ doc. (length doc < u32_mod) × All (λ key. key < u64_mod) doc) edges
      → decode (encode edges) ≡ ok edges
  unfolding decode encode finish
  decode-encode_graph edges small fit =
      let same : length edges % u32_mod ≡ length edges = omega arith in
      rw
        (
          same,
          ← append-nil (encode_docs edges),
          io.u32-bytes (length edges) (encode_docs edges ++ []) small,
          decode_docs-encode_docs edges [] fit,
        )
        refl
