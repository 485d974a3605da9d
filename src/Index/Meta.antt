-- ===== src/Index/Meta.antt =====
-- src/index/meta.rs: the metadata of a document and the structured filters. Strings are their
-- bytes.
pub mod Filters
pub mod Codec
pub mod RoundTrip
use link_r.Prelude.{
  drop, ℕ, zero, suc, ◌+◌, ◌%◌, Bool, true, false, not as negate, ◌&&◌, ◌||◌, Option, none, some,
  List, [], ◌∷◌, Bytes, any, ltb, leb, if◌then◌else◌, ◌==◌, nat_eq, bytes_eq, u32_mod,
}
use link_r.External.{Bitmap}
use link_r.Resource.{ResourceKind, as_tag}

pub record DocMeta : Type 0 where
  pub url : Bytes
  pub url_key : ℕ
  pub kind : ResourceKind
  pub content_hash : ℕ
  pub doc_len : ℕ
  pub title : Option Bytes
  pub snippet : Bytes
  pub lang : Option Bytes
  pub tags : List Bytes
  pub fetched_at_ms : ℕ
  pub pinned : Bool
  pub etag : Option Bytes

-- `s.starts_with(prefix)`
unfoldable pub starts_with : Bytes → Bytes → Bool
starts_with s [] = true
starts_with [] (p ∷ ps) = false
starts_with (c ∷ cs) (p ∷ ps) = c == p && starts_with cs ps

-- `url.split_once("://")`, the part behind.
unfoldable pub after_scheme : Bytes → Option Bytes
unfolding starts_with
after_scheme [] = none
after_scheme (c ∷ cs) =
    let rest = after_scheme cs in
    if starts_with (c ∷ cs) (58 ∷ 47 ∷ 47 ∷ []) then some (drop 3 (c ∷ cs)) else rest

-- `rest.find('/').map_or("", |i| &rest[i..])`
unfoldable pub from_slash : Bytes → Bytes
from_slash [] = []
from_slash (c ∷ cs) = let rest = from_slash cs in if c == 47 then c ∷ cs else rest

-- The text before the first '?' or '#'.
unfoldable pub before_query : Bytes → Bytes
before_query [] = []
before_query (c ∷ cs) = let rest = before_query cs in if c == 63 || c == 35 then [] else c ∷ rest

path_of : Bytes → Bytes
path_of [] = 47 ∷ []
path_of (c ∷ cs) = before_query (c ∷ cs)

unfoldable pub path : DocMeta → Bytes
unfolding path_of from_slash before_query after_scheme
path d = elim (after_scheme d.url) [ none ↦ d.url | some rest ↦ path_of (from_slash rest) ]

pub data Filter : Type 0 where
  all : Filter
  tag : Bytes → Filter
  lang : Bytes → Filter
  path_prefix : Bytes → Filter
  kind : ResourceKind → Filter
  fetched_before : ℕ → Filter
  fetched_after : ℕ → Filter
  and : Filter → Filter → Filter
  or : Filter → Filter → Filter
  not : Filter → Filter

unfoldable pub is_all : Filter → Bool
is_all Filter.all = true
is_all _ = false

kind_eq : ResourceKind → ResourceKind → Bool
kind_eq a b = as_tag a == as_tag b

unfoldable pub matches : Filter → DocMeta → Bool
unfolding kind_eq path starts_with
matches all doc = true
matches (tag t) doc = any (λ x. x == t) doc.tags
matches (lang l) doc = elim doc.lang [ none ↦ false | some x ↦ x == l ]
matches (path_prefix p) doc = starts_with (path doc) p
matches (kind k) doc = kind_eq doc.kind k
matches (fetched_before t) doc = ltb doc.fetched_at_ms t
matches (fetched_after t) doc = leb t doc.fetched_at_ms
matches (Filter.and a b) doc = matches a doc && matches b doc
matches (Filter.or a b) doc = matches a doc || matches b doc
matches (Filter.not a) doc = negate (matches a doc)

module _ ⦃b : Bitmap⦄ where
  -- The loop over the enumerated documents; `i as DocId` wraps.
  unfoldable pub evaluate_loop : Filter → ℕ → List DocMeta → b.Set → b.Set
  evaluate_loop filter i [] allowed = allowed
  evaluate_loop filter i (doc ∷ docs) allowed =
      evaluate_loop filter (i + 1) docs
        (if matches filter doc then b.insert allowed (i % u32_mod) else allowed)

  unfoldable pub evaluate : Filter → List DocMeta → Option b.Set
  evaluate filter docs = if is_all filter then none else some (evaluate_loop filter 0 docs b.new)
