-- ===== src/Examples/Extracts.antt =====
-- Extraction and credentials at concrete inputs.
use mathlib.Core.List.{Perm}
use link_r.Prelude.{
  ℕ, ◌≡◌, ◌≢◌, ◌↔◌, ◌⊎◌, refl, none, some, [], ◌∷◌, ◌++◌, codes, replicate, ◌≤◌, take, leb, length,
  IsSortedBy,
}
use link_r.Prelude.{List, All}
use link_r.Error.{ok, panic}
use link_r.Resource
use link_r.Resource.{Resource, ResourceKind}
use link_r.Auth.{Credential, bearer_scoped, credential, exposed}
use link_r.Auth.Confined.{HostInDomain, credential_scoped}
use link_r.Extract.Str.{Chars, lines}
use link_r.Extract.Plain.{first_line, plain_title}
use link_r.Extract.Lines.{Lines, IsBlank, FirstLine}
use link_r.Extract.Title.{Titled, plain_title_lem}
use link_r.Extract.Descriptor.{Descriptor, into_document, max_edges_per_doc}
use link_r.Extract.Descriptor.Edges.{distinct, Keys, into_document-edges}
use link_r.Examples.Setup.{Url, url_api, hasher, root}

-- 119 letters and an accented one, which has two bytes.
abbrev accented : Chars
accented = codes "  " ++ replicate 119 97 ++ 233 ∷ 10 ∷ []

accented_panics : plain_title accented ≡ panic
unfolding plain_title link_r.Extract.Plain.title_of first_line lines link_r.Extract.Str.trim
    link_r.Extract.Str.trim_start link_r.Extract.Str.trim_end link_r.Extract.Str.is_whitespace
    link_r.Extract.Str.slice_to link_r.Extract.Str.len link_r.Extract.Str.len_utf8
accented_panics = refl

two_lines : plain_title (13 ∷ 10 ∷ codes " title ") ≡ ok (some (codes "title"))
unfolding plain_title link_r.Extract.Plain.title_of first_line lines link_r.Extract.Str.trim
    link_r.Extract.Str.trim_start link_r.Extract.Str.trim_end link_r.Extract.Str.is_whitespace
    link_r.Extract.Str.slice_to link_r.Extract.Str.len link_r.Extract.Str.len_utf8
two_lines = refl

plain_title_lem_example :
    (ls : List Chars) × Lines accented ls
    × (((plain_title accented ≡ ok none) × All IsBlank ls)
        ⊎ ((l : Chars) × FirstLine ls l × Titled l (plain_title accented)))
plain_title_lem_example = plain_title_lem accented

abbrev page : Resource Url
unfolding Resource.new
page = Resource.new root

scoped : (bearer_scoped (codes "t") (codes "a.dev")).scope_host ≡ some (codes "a.dev")
unfolding bearer_scoped
scoped = refl

credential_scoped_example :
    ((credential (bearer_scoped (codes "t") (codes "a.dev")) page
        ≡ exposed
            (bearer_scoped (codes "t") (codes "a.dev")).kind
            (bearer_scoped (codes "t") (codes "a.dev")).token)
      ↔ HostInDomain (url_api.host_str page.url) (codes "a.dev"))
    × ((credential (bearer_scoped (codes "t") (codes "a.dev")) page
          ≢ exposed
              (bearer_scoped (codes "t") (codes "a.dev")).kind
              (bearer_scoped (codes "t") (codes "a.dev")).token)
        → credential (bearer_scoped (codes "t") (codes "a.dev")) page ≡ Credential.anonymous)
credential_scoped_example =
    credential_scoped (bearer_scoped (codes "t") (codes "a.dev")) (codes "a.dev") page scoped

abbrev descriptor : Descriptor
descriptor = record {
  title = none;
  keywords = [];
  headings = [];
  heading_levels = [];
  tags = codes "docs" ∷ [];
  lang = none;
  snippet = codes "s";
  embed_text = codes "s";
  bm25_terms = codes "s" ∷ [];
  links = codes "/b" ∷ codes "/a" ∷ codes "/b" ∷ [];
}

into_document-edges_example :
    (keys : List ℕ) × Keys root descriptor.links keys
    × Perm
        (into_document {F = ℕ} descriptor root ResourceKind.html 7 (1 ∷ [])).edges
        (take max_edges_per_doc (distinct [] keys))
    × IsSortedBy leb (into_document {F = ℕ} descriptor root ResourceKind.html 7 (1 ∷ [])).edges
    × (length (into_document {F = ℕ} descriptor root ResourceKind.html 7 (1 ∷ [])).edges
        ≤ max_edges_per_doc)
into_document-edges_example =
    into_document-edges {F = ℕ} descriptor root ResourceKind.html 7 (1 ∷ [])
