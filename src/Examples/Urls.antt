-- ===== src/Examples/Urls.antt =====
-- URL keys, paths and filters at concrete inputs.
use link_r.Prelude.{◌≡◌, ◌↔◌, refl, some, [], ◌∷◌, codes, arith}
use link_r.UrlKey.{canonicalize, from_url, path_chunk, is_ascii_uppercase, to_ascii_lowercase}
use link_r.UrlKey.Canonical.{SameResource, hosts, from_url-eq-hash, from_url-SameResource}
use link_r.UrlKey.Same.{SameText, same_case}
use link_r.UrlKey.SameQuery.{SameQuery, SameSegments}
use link_r.Prelude.{[], inl, inr}
use link_r.UrlKey.Path.{EndsInTwoSlashes, path_chunk_idempotent_iff, path_chunk-two_slashes}
use link_r.UrlKey.Port.{fmt_u16?, fmt_u16, read_decimal, fmt_u16_total}
use link_r.Examples.Setup.{Url, url_api, hasher, float, bitmap, root_slash}

from_url-eq-hash_example :
    from_url root_slash ≡ hasher.digest64 (hasher.update hasher.new (canonicalize root_slash))
from_url-eq-hash_example = from_url-eq-hash root_slash

abbrev plain_url : Url
plain_url = record { host = some (codes "a.dev"); path = codes "/docs"; query = some (codes "a&b") }

-- The same resource: another case, a slash behind, an empty segment and another order.
abbrev other_url : Url
other_url = record {
  host = some (codes "A.dev");
  path = codes "/docs/";
  query = some (codes "b&&a");
}

same_query : SameQuery plain_url.query other_url.query
same_query = record {
  left = codes "a" ∷ codes "b" ∷ [];
  right = codes "b" ∷ [] ∷ codes "a" ∷ [];
  text_left = refl;
  text_right = refl;
  left_segments = ((omega arith, tt), ((omega arith, tt), tt));
  right_segments = ((omega arith, tt), (tt, ((omega arith, tt), tt)));
  same = SameSegments.trans (SameSegments.swap (codes "a") (codes "b") []) (
      SameSegments.keep (codes "b")
        (SameSegments.skip_right (SameSegments.keep (codes "a") SameSegments.done)));
}

same_host : SameText (codes "a.dev") (codes "A.dev")
unfolding to_ascii_lowercase is_ascii_uppercase
same_host = same_case (codes "a.dev") (codes "A.dev") refl

same_urls : SameResource plain_url other_url
same_urls = record {
  scheme = refl;
  host = hosts same_host;
  port = refl;
  path = inr (inl (inl (codes "/doc", 115, omega arith, refl, refl)));
  query = same_query;
}

from_url-SameResource_example : from_url plain_url ≡ from_url other_url
from_url-SameResource_example = from_url-SameResource plain_url other_url same_urls

path_chunk_idempotent_iff_example :
    (path_chunk (path_chunk (codes "/a//")) ≡ path_chunk (codes "/a//"))
    ↔ (¬ EndsInTwoSlashes (codes "/a//"))
path_chunk_idempotent_iff_example = path_chunk_idempotent_iff (codes "/a//")

path_chunk-two_slashes_example :
    (path_chunk (codes "/a//") ≡ codes "/a/") × (path_chunk (codes "/a/") ≡ codes "/a")
path_chunk-two_slashes_example = path_chunk-two_slashes 47 (97 ∷ [])

fmt_u16_total_example :
    (fmt_u16? 8080 ≡ some (fmt_u16 8080)) × (read_decimal 0 (fmt_u16 8080) ≡ 8080)
fmt_u16_total_example = fmt_u16_total 8080 (omega arith)
