-- ===== src/Metric.antt =====
-- src/metric.rs: the distance metric and its tag.
use link_r.Prelude.{ℕ, ◌≡◌, refl, Bool, true, false, if◌then◌else◌, ◌==◌, nat_eq}

pub data Metric : Type 0 where
  cosine dot l2 : Metric

unfoldable pub as_tag : Metric → ℕ
as_tag cosine = 0
as_tag dot = 1
as_tag l2 = 2

unfoldable pub from_tag : ℕ → Metric
from_tag tag = if tag == 1 then dot else if tag == 2 then l2 else cosine

unfoldable pub normalizes : Metric → Bool
normalizes cosine = true
normalizes _ = false

-- A metric decodes from its own tag.
pub from_tag-as_tag_metric : (m : Metric) → from_tag (as_tag m) ≡ m
unfolding from_tag as_tag
from_tag-as_tag_metric cosine = refl
from_tag-as_tag_metric dot = refl
from_tag-as_tag_metric l2 = refl
