-- ===== src/Resource.antt =====
-- src/resource.rs: document ids, content kinds and resources. A path is its bytes.
pub mod Tags
pub mod SourceRefs
pub mod FileName
use link_r.Prelude.{
  ℕ, ◌≡◌, Bool, true, false, ◌&&◌, Option, none, some, List, [], ◌∷◌, Bytes, codes, any,
  if◌then◌else◌, ◌==◌, bytes_eq, nat_eq,
}
use link_r.UrlKey.{to_ascii_lowercase}
use link_r.UrlKey.Segments.{split}
use link_r.External.{UrlApi}

-- `u32`
abbrev pub DocId : Type 0
DocId = ℕ

pub data ResourceKind : Type 0 where
  html markdown code text pdf json unknown : ResourceKind

-- `.rsplit(sep).next()`: what follows the last separator.
last_or : Bytes → List Bytes → Bytes
last_or s [] = s
last_or s (t ∷ ts) = last_or t ts

unfoldable pub rsplit_next : ℕ → Bytes → Bytes
unfolding last_or
rsplit_next sep s = last_or [] (split sep s)

abbrev code_exts : List Bytes
code_exts =
    codes "rs"
    ∷ codes "py"
    ∷ codes "js"
    ∷ codes "ts"
    ∷ codes "go"
    ∷ codes "c"
    ∷ codes "h"
    ∷ codes "cpp"
    ∷ codes "hpp"
    ∷ codes "java"
    ∷ codes "rb"
    ∷ codes "toml"
    ∷ codes "yaml"
    ∷ codes "yml"
    ∷ codes "sh"
    ∷ codes "sql"
    ∷ []

-- `match ext { "html" | "htm" | … }`
one_of : Bytes → List Bytes → Bool
one_of e l = any (λ x. x == e) l

unfoldable pub from_ext : Bytes → ResourceKind
unfolding one_of
from_ext e =
    if one_of e (codes "html" ∷ codes "htm" ∷ codes "xhtml" ∷ [])
    then html
    else if one_of e (codes "md" ∷ codes "markdown" ∷ codes "mdx" ∷ [])
    then markdown
    else if e == codes "json"
    then json
    else if e == codes "pdf"
    then pdf
    else if one_of e (codes "txt" ∷ codes "text" ∷ [])
    then text
    else if one_of e code_exts
    then code
    else unknown

unfoldable pub from_path : Bytes → ResourceKind
unfolding rsplit_next to_ascii_lowercase from_ext split
from_path path = from_ext (rsplit_next 46 (to_ascii_lowercase (rsplit_next 47 path)))

or_kind : ResourceKind → ResourceKind → ResourceKind
or_kind self unknown = self
or_kind self from = from

unfoldable pub refine_with_path : ResourceKind → Bytes → ResourceKind
unfolding or_kind
refine_with_path text path = or_kind text (from_path path)
refine_with_path unknown path = or_kind unknown (from_path path)
refine_with_path kind path = kind

unfoldable pub is_indexable : ResourceKind → Bool
is_indexable pdf = false
is_indexable unknown = false
is_indexable _ = true

unfoldable pub is_linkable : ResourceKind → Bool
is_linkable html = true
is_linkable markdown = true
is_linkable _ = false

unfoldable pub as_tag : ResourceKind → ℕ
as_tag html = 0
as_tag markdown = 1
as_tag code = 2
as_tag text = 3
as_tag pdf = 4
as_tag json = 5
as_tag unknown = 255

unfoldable pub from_tag : ℕ → ResourceKind
from_tag tag =
    if tag == 0
    then html
    else if tag == 1
    then markdown
    else if tag == 2
    then code
    else if tag == 3
    then text
    else if tag == 4
    then pdf
    else if tag == 5
    then json
    else unknown

pub record Resource (Url : Type 0) : Type 0 where
  pub url : Url
  pub kind : ResourceKind
  pub etag : Option Bytes
  pub size : Option ℕ

module _ {Url : Type 0} ⦃u : UrlApi Url⦄ where
  unfoldable pub new : Url → Resource Url
  new url = record { url = url; kind = from_path (u.path url); etag = none; size = none }

module _ {Url : Type 0} where
  unfoldable pub with_kind : Resource Url → ResourceKind → Resource Url
  with_kind self kind = record self { kind = kind }

  unfoldable pub with_etag : Resource Url → Bytes → Resource Url
  with_etag self etag = record self { etag = some etag }
