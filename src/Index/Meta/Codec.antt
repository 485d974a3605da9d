-- ===== src/Index/Meta/Codec.antt =====
-- src/index/meta.rs: `encode` and `decode` of the metadata section.
use link_r.Prelude.{
  ℕ, zero, suc, ◌%◌, Bool, true, false, Option, none, some, List, [], ◌∷◌, ◌++◌, Bytes, length,
  u32_mod, if◌then◌else◌, ◌==◌, nat_eq,
}
use link_r.Error.{Error, Result, ok, err, ◌>>=◌}
use link_r.External.{ByteIo}
use link_r.Resource.{as_tag, from_tag}
use link_r.Index.Meta.{DocMeta}

-- `u8::from(pinned)`
abbrev pub u8_from : Bool → ℕ
u8_from true = 1
u8_from false = 0

module _ ⦃io : ByteIo⦄ where
  unfoldable pub put_opt_str : Option Bytes → Bytes
  put_opt_str none = io.bytes_u8 0
  put_opt_str (some v) = io.bytes_u8 1 ++ io.bytes_blob v

  unfoldable pub put_tags : List Bytes → Bytes
  put_tags [] = []
  put_tags (tag ∷ tags) = io.bytes_blob tag ++ put_tags tags

  unfoldable pub put_freshness : DocMeta → Bytes
  put_freshness d =
      io.bytes_u64 d.fetched_at_ms ++ (io.bytes_u8 (u8_from d.pinned) ++ put_opt_str d.etag)

  unfoldable pub put_doc : DocMeta → Bytes
  put_doc d =
      io.bytes_blob d.url
      ++ (io.bytes_u64 d.url_key
          ++ (io.bytes_u8 (as_tag d.kind)
              ++ (io.bytes_u64 d.content_hash
                  ++ (io.bytes_u32 d.doc_len
                      ++ (put_opt_str d.title
                          ++ (io.bytes_blob d.snippet
                              ++ (put_opt_str d.lang
                                  ++ (io.bytes_u32 (length d.tags % u32_mod)
                                      ++ (put_tags d.tags ++ put_freshness d)))))))))

  unfoldable pub put_docs : List DocMeta → Bytes
  put_docs [] = []
  put_docs (d ∷ docs) = put_doc d ++ put_docs docs

  unfoldable pub encode : List DocMeta → Bytes
  encode docs = io.bytes_u32 (length docs % u32_mod) ++ put_docs docs

  unfoldable pub opt_str_of : ℕ → Bytes → Result (Option Bytes × Bytes)
  opt_str_of zero r = ok (none, r)
  opt_str_of (suc zero) r = do (v, r1) ← io.blob r; ok (some v, r1)
  opt_str_of (suc (suc n)) r = err (Error.format "invalid optional-string flag")

  unfoldable pub get_opt_str : Bytes → Result (Option Bytes × Bytes)
  get_opt_str r = do (flag, r1) ← io.u8 r; opt_str_of flag r1

  unfoldable pub get_tags : ℕ → Bytes → Result (List Bytes × Bytes)
  get_tags zero r = ok ([], r)
  get_tags (suc tag_count) r = do
    (tag, r1) ← io.blob r
    (tags, r2) ← get_tags tag_count r1
    ok (tag ∷ tags, r2)

  unfoldable pub pinned_of : ℕ → Result Bool
  pinned_of zero = ok false
  pinned_of (suc zero) = ok true
  pinned_of (suc (suc n)) = err (Error.format "invalid pinned flag")

  -- The freshness columns, or what a legacy file has in their place.
  unfoldable pub get_freshness : Bool → Bytes → Result ((ℕ × Bool × Option Bytes) × Bytes)
  get_freshness false r = ok ((0, false, none), r)
  get_freshness true r = do
    (fetched_at_ms, r1) ← io.u64 r
    (flag, r2) ← io.u8 r1
    pinned ← pinned_of flag
    (etag, r3) ← get_opt_str r2
    ok ((fetched_at_ms, pinned, etag), r3)

  unfoldable pub get_doc : Bool → Bytes → Result (DocMeta × Bytes)
  get_doc has_freshness r = do
    (url, r1) ← io.blob r
    (url_key, r2) ← io.u64 r1
    (tag, r3) ← io.u8 r2
    (content_hash, r4) ← io.u64 r3
    (doc_len, r5) ← io.u32 r4
    (title, r6) ← get_opt_str r5
    (snippet, r7) ← io.blob r6
    (lang, r8) ← get_opt_str r7
    (tag_count, r9) ← io.u32 r8
    (tags, r10) ← get_tags tag_count r9
    ((fetched_at_ms, pinned, etag), r11) ← get_freshness has_freshness r10
    ok (
      record {
        url = url;
        url_key = url_key;
        kind = from_tag tag;
        content_hash = content_hash;
        doc_len = doc_len;
        title = title;
        snippet = snippet;
        lang = lang;
        tags = tags;
        fetched_at_ms = fetched_at_ms;
        pinned = pinned;
        etag = etag;
      },
      r11,
    )

  unfoldable pub get_docs : Bool → ℕ → Bytes → Result (List DocMeta × Bytes)
  get_docs has_freshness zero r = ok ([], r)
  get_docs has_freshness (suc count) r = do
    (d, r1) ← get_doc has_freshness r
    (docs, r2) ← get_docs has_freshness count r1
    ok (d ∷ docs, r2)

  -- The error when bytes remain.
  unfoldable pub finish : List DocMeta × Bytes → Result (List DocMeta)
  finish (docs, r) =
      if length r == 0 then ok docs else err (Error.format "trailing bytes in DocMeta section")

  unfoldable pub decode : Bytes → Bool → Result (List DocMeta)
  decode bytes has_freshness = do
    (count, r) ← io.u32 bytes
    read ← get_docs has_freshness count r
    finish read
