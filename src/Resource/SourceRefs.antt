-- ===== src/Resource/SourceRefs.antt =====
-- src/resource.rs: the parent that a source enumerates. `Url::parse` is a parameter.
use link_r.Prelude.{not, ◌&&◌, Option, none, some, Bytes, codes, if◌then◌else◌, ◌==◌, bytes_eq}
use link_r.Error.{Error, Result, ok, err}
use link_r.External.{UrlApi}

pub data SourceRef (Url : Type 0) : Type 0 where
  http : Url → SourceRef Url
  fs : Bytes → SourceRef Url

module _ {Url : Type 0} ⦃u : UrlApi Url⦄ where
  unfoldable pub of_root : Url → Result (SourceRef Url)
  of_root root =
      if not (u.scheme root == codes "http") && not (u.scheme root == codes "https")
      then err (Error.invalid_url "expected http(s), got scheme")
      else ok (http root)

  -- `SourceRef::http`
  unfoldable pub http_of : (Bytes → Option Url) → Bytes → Result (SourceRef Url)
  http_of parse url = elim (parse url) [
    | none ↦ err (Error.invalid_url "not a URL")
    | some root ↦ of_root root
  ]

  -- `SourceRef::kind`
  unfoldable pub kind : SourceRef Url → Bytes
  kind (http root) = codes "http"
  kind (fs root) = codes "fs"
