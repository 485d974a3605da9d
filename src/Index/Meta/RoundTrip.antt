-- ===== src/Index/Meta/RoundTrip.antt =====
-- The metadata section reads back as it was written (src/index/meta.rs).
use mathlib.Core.List.{append_assoc}
use link_r.Prelude.{
  ◌%◌, ◌<◌, ◌≡◌, refl, Bool, true, false, Option, none, some, List, [], ◌∷◌, ◌++◌, Bytes, All,
  length, append-nil, u32_mod, u64_mod, arith,
}
use link_r.Error.{ok}
use link_r.External.{ByteIo}
use link_r.Resource.{as_tag}
use link_r.Resource.Tags.{from_tag-as_tag}
use link_r.Index.Meta.{DocMeta}
use link_r.Index.Meta.Codec.{
  u8_from, put_opt_str, put_tags, put_freshness, put_doc, put_docs, encode, opt_str_of, get_opt_str,
  get_tags, pinned_of, get_freshness, get_doc, get_docs, finish, decode,
}

module _ ⦃io : ByteIo⦄ where
  abbrev pub IsOptText : Option Bytes → Type 0
  IsOptText none = Unit
  IsOptText (some v) = io.IsText v

  -- The ranges of the columns, which their Rust types guarantee.
  pub record Fits (d : DocMeta) : Type 0 where
    pub url : io.IsText d.url
    pub url_key : d.url_key < u64_mod
    pub content_hash : d.content_hash < u64_mod
    pub doc_len : d.doc_len < u32_mod
    pub title : IsOptText d.title
    pub snippet : io.IsText d.snippet
    pub lang : IsOptText d.lang
    pub tag_count : length d.tags < u32_mod
    pub tags : All (λ t. io.IsText t) d.tags
    pub fetched_at_ms : d.fetched_at_ms < u64_mod
    pub etag : IsOptText d.etag

  get_opt_str-put_opt_str :
      (o : Option Bytes) (rest : Bytes)
      → IsOptText o
      → get_opt_str (put_opt_str o ++ rest) ≡ ok (o, rest)
  unfolding get_opt_str put_opt_str opt_str_of
  get_opt_str-put_opt_str none rest fit = rw (io.u8-bytes 0 rest (omega arith)) refl
  get_opt_str-put_opt_str (some v) rest fit =
      rw
        (
          append_assoc (io.bytes_u8 1) (io.bytes_blob v) rest,
          io.u8-bytes 1 (io.bytes_blob v ++ rest) (omega arith),
          io.blob-bytes v rest fit,
        )
        refl

  get_tags-put_tags :
      (tags : List Bytes) (rest : Bytes)
      → All (λ t. io.IsText t) tags
      → get_tags (length tags) (put_tags tags ++ rest) ≡ ok (tags, rest)
  unfolding get_tags put_tags
  get_tags-put_tags [] rest fit = refl
  get_tags-put_tags (t ∷ tags) rest (text, fit) =
      rw
        (
          append_assoc (io.bytes_blob t) (put_tags tags) rest,
          io.blob-bytes t (put_tags tags ++ rest) text,
          get_tags-put_tags tags rest fit,
        )
        refl

  pinned_of-u8_from : (p : Bool) → pinned_of (u8_from p) ≡ ok p
  unfolding pinned_of
  pinned_of-u8_from true = refl
  pinned_of-u8_from false = refl

  u8_from_lt : (p : Bool) → u8_from p < 256
  u8_from_lt true = omega arith
  u8_from_lt false = omega arith

  get_freshness-put_freshness :
      (d : DocMeta) (rest : Bytes)
      → Fits d
      → get_freshness true (put_freshness d ++ rest)
        ≡ ok ((d.fetched_at_ms, d.pinned, d.etag), rest)
  unfolding get_freshness put_freshness
  get_freshness-put_freshness d rest fit =
      let flag = io.bytes_u8 (u8_from d.pinned) in
      let etag = put_opt_str d.etag in
      rw
        (
          append_assoc (io.bytes_u64 d.fetched_at_ms) (flag ++ etag) rest,
          append_assoc flag etag rest,
          io.u64-bytes d.fetched_at_ms (flag ++ (etag ++ rest)) fit.fetched_at_ms,
          io.u8-bytes (u8_from d.pinned) (etag ++ rest) (u8_from_lt d.pinned),
          pinned_of-u8_from d.pinned,
          get_opt_str-put_opt_str d.etag rest fit.etag,
        )
        refl

  get_doc-put_doc :
      (d : DocMeta) (rest : Bytes) → Fits d → get_doc true (put_doc d ++ rest) ≡ ok (d, rest)
  unfolding get_doc put_doc
  get_doc-put_doc d rest fit =
      let same : length d.tags % u32_mod ≡ length d.tags = let h = fit.tag_count in omega arith in
      let fresh = put_freshness d in
      let w10 = put_tags d.tags ++ fresh in
      let w9 = io.bytes_u32 (length d.tags) ++ w10 in
      let w8 = put_opt_str d.lang ++ w9 in
      let w7 = io.bytes_blob d.snippet ++ w8 in
      let w6 = put_opt_str d.title ++ w7 in
      let w5 = io.bytes_u32 d.doc_len ++ w6 in
      let w4 = io.bytes_u64 d.content_hash ++ w5 in
      let w3 = io.bytes_u8 (as_tag d.kind) ++ w4 in
      let w2 = io.bytes_u64 d.url_key ++ w3 in
      rw
        (
          same,
          append_assoc (io.bytes_blob d.url) w2 rest,
          append_assoc (io.bytes_u64 d.url_key) w3 rest,
          append_assoc (io.bytes_u8 (as_tag d.kind)) w4 rest,
          append_assoc (io.bytes_u64 d.content_hash) w5 rest,
          append_assoc (io.bytes_u32 d.doc_len) w6 rest,
          append_assoc (put_opt_str d.title) w7 rest,
          append_assoc (io.bytes_blob d.snippet) w8 rest,
          append_assoc (put_opt_str d.lang) w9 rest,
          append_assoc (io.bytes_u32 (length d.tags)) w10 rest,
          append_assoc (put_tags d.tags) fresh rest,
          io.blob-bytes d.url _ fit.url,
          io.u64-bytes d.url_key _ fit.url_key,
          io.u8-bytes (as_tag d.kind) _ (from_tag-as_tag d.kind).1,
          io.u64-bytes d.content_hash _ fit.content_hash,
          io.u32-bytes d.doc_len _ fit.doc_len,
          get_opt_str-put_opt_str d.title _ fit.title,
          io.blob-bytes d.snippet _ fit.snippet,
          get_opt_str-put_opt_str d.lang _ fit.lang,
          io.u32-bytes (length d.tags) _ fit.tag_count,
          get_tags-put_tags d.tags _ fit.tags,
          get_freshness-put_freshness d rest fit,
          (from_tag-as_tag d.kind).0,
        )
        refl

  get_docs-put_docs :
      (docs : List DocMeta) (rest : Bytes)
      → All (λ d. Fits d) docs
      → get_docs true (length docs) (put_docs docs ++ rest) ≡ ok (docs, rest)
  unfolding get_docs put_docs
  get_docs-put_docs [] rest fit = refl
  get_docs-put_docs (d ∷ docs) rest (one, fit) =
      rw
        (
          append_assoc (put_doc d) (put_docs docs) rest,
          get_doc-put_doc d (put_docs docs ++ rest) one,
          get_docs-put_docs docs rest fit,
        )
        refl

  -- The metadata of fewer than 2^32 documents whose columns are in the ranges of their types decodes from its encoding, with every
  -- column, the freshness columns included.
  pub decode-encode_meta :
      (docs : List DocMeta)
      → length docs < u32_mod
      → All (λ d. Fits d) docs
      → decode (encode docs) true ≡ ok docs
  unfolding decode encode finish
  decode-encode_meta docs small fit =
      let same : length docs % u32_mod ≡ length docs = omega arith in
      rw
        (
          same,
          ← append-nil (put_docs docs),
          io.u32-bytes (length docs) (put_docs docs ++ []) small,
          get_docs-put_docs docs [] fit,
        )
        refl
