-- ===== src/Resource/Tags.antt =====
-- The stable tags of content kinds, and what the path may refine.
use link_r.Prelude.{◌<◌, ◌≡◌, refl, arith}
use link_r.Resource.{ResourceKind, as_tag, from_tag}
use link_r.Resource.ResourceKind.{html, markdown, code, text, pdf, json, unknown}

-- A tag fits a byte and decodes to its kind.
pub from_tag-as_tag : (k : ResourceKind) → (from_tag (as_tag k) ≡ k) × (as_tag k < 256)
unfolding from_tag as_tag
from_tag-as_tag html = (refl, omega arith)
from_tag-as_tag markdown = (refl, omega arith)
from_tag-as_tag code = (refl, omega arith)
from_tag-as_tag text = (refl, omega arith)
from_tag-as_tag pdf = (refl, omega arith)
from_tag-as_tag json = (refl, omega arith)
from_tag-as_tag unknown = (refl, omega arith)
