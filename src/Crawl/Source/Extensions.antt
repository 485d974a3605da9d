-- ===== src/Crawl/Source/Extensions.antt =====
-- The extension filter as `accept_extension` configures it (src/source/crawl.rs).
use link_r.Prelude.{
  ◌≡◌, ◌↔◌, refl, sym, ap, ◌∙◌, true, Option, none, some, [], ◌∷◌, Bytes, arith, bytes_beq_iff,
  bytes_eq,
}
use link_r.External.{UrlApi}
use link_r.UrlKey.{to_ascii_lowercase, is_ascii_uppercase}
use link_r.Crawl.Scope.{
  extension_allowed, some_ext, ext_of, eq_ignore_ascii_case, normalize_ext, trim_dots,
}
use link_r.Crawl.Scope.Names.{
  Undotted, Extends, trim_dots-Undotted, Undotted-trim_dots, ext_of-Extends, Extends-ext_of,
}
use link_r.UrlKey.Same.{SameText, same_case, to_ascii_lowercase-SameText}
use link_r.Crawl.Source.{CrawlSource, accept_extension}

lower_twice : (s : Bytes) → to_ascii_lowercase (to_ascii_lowercase s) ≡ to_ascii_lowercase s
unfolding to_ascii_lowercase is_ascii_uppercase
lower_twice [] = refl
lower_twice (c ∷ s) = ground (arith, lower_twice s)

-- The path's extension is the one given without the dots before it, up to ASCII case.
pub record HasExtension (path given : Bytes) : Type 0 where
  pub asked : Bytes
  pub found : Bytes
  pub undotted : Undotted given asked
  pub extends : Extends path found
  pub same : SameText asked found

some_ext-one :
    (extension : Bytes) (o : Option Bytes)
    → (some_ext (normalize_ext extension ∷ []) o ≡ true) ↔ (
        (e : Bytes) × (o ≡ some e)
        × (to_ascii_lowercase (trim_dots extension) ≡ to_ascii_lowercase e))
unfolding some_ext eq_ignore_ascii_case normalize_ext
some_ext-one extension none = (λ h. absurd (ground arith), λ p. absurd (ground (arith, p.1)))
some_ext-one extension (some x) =
    let twice = lower_twice (trim_dots extension) in
    let same =
      bytes_beq_iff (to_ascii_lowercase (to_ascii_lowercase (trim_dots extension)))
        (to_ascii_lowercase x) in
    (
      λ h. (x, refl, sym twice ∙ same.0 (ground arith)),
      λ p.
          (let (e, found, low) = p in
            let e_x : e ≡ x = ground arith in
            let tested = same.1 (twice ∙ (low ∙ ap to_ascii_lowercase e_x)) in ground arith),
    )

-- With a source of no extensions that is given one by `accept_extension`, the extension filter
-- passes exactly the URLs whose path has it behind the last dot of its last segment, whatever the
-- case of either and the dots before the one given.
pub accept_extension_allows :
    {F Url : Type 0} ⦃u : UrlApi Url⦄ (self : CrawlSource F Url) (extension : Bytes) (url : Url)
    → self.config.accept_extensions ≡ []
    → (extension_allowed url (accept_extension self extension).config.accept_extensions ≡ true)
      ↔ HasExtension (u.path url) extension
unfolding accept_extension extension_allowed
accept_extension_allows ⦃u⦄ self extension url fresh =
    let test = some_ext-one extension (ext_of (u.path url)) in
    rw fresh (
      λ h.
          (let (e, at, low) = test.0 h in
            record {
              asked = trim_dots extension;
              found = e;
              undotted = trim_dots-Undotted extension;
              extends = ext_of-Extends (u.path url) e at;
              same = same_case (trim_dots extension) e low;
            }),
      λ x. test.1 (
        x.found,
        Extends-ext_of x.extends,
        ap to_ascii_lowercase (Undotted-trim_dots x.undotted) ∙ to_ascii_lowercase-SameText x.same,
      ),
    )
