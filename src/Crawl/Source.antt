-- ===== src/Crawl/Source.antt =====
-- `CrawlConfig::default` and the builder methods of `CrawlSource` in src/source/crawl.rs. The
-- fetcher is of any type.
pub mod Extensions
use link_r.Prelude.{
  ℕ, ◌*◌, Bool, true, false, Option, none, some, List, [], ◌∷◌, ◌++◌, Bytes, nat_eq,
}
use link_r.Prelude.HashMap
use link_r.Prelude.HashMap.{HashMap}
use link_r.Crawl.Scope.{CrawlScope, path_prefix, normalize_ext}
use link_r.Crawl.State.{CrawlConfig}

pub record CrawlSource (F Url : Type 0) : Type 0 where
  pub fetcher : F
  pub config : CrawlConfig Url
  pub failed : ℕ
  pub revalidated : List Url

unfoldable pub default : {Url : Type 0} → CrawlConfig Url
default = record {
  max_depth = 2;
  scope = path_prefix;
  max_pages = 1000;
  min_delay = 0;
  max_bytes = some (2 * 1024 * 1024);
  user_agent = none;
  require_path_contains = [];
  accept_extensions = [];
  index_path_contains = [];
  concurrency = 8;
  max_retries = 2;
  validators = [];
  known_edges = [];
  respect_robots = false;
}

-- `entries.into_iter().collect()`
collect : {V : Type 0} → HashMap ℕ V → List (ℕ × V) → HashMap ℕ V
collect m [] = m
collect m ((key, v) ∷ entries) = collect (HashMap.insert m key v) entries

module _ {F Url : Type 0} where
  unfoldable pub with_config : F → CrawlConfig Url → CrawlSource F Url
  with_config fetcher config = record {
    fetcher = fetcher;
    config = config;
    failed = 0;
    revalidated = [];
  }

  -- `CrawlSource::new`
  unfoldable pub new : F → CrawlSource F Url
  new fetcher = with_config fetcher default

  -- A change of the configuration.
  abbrev with_changed : CrawlSource F Url → CrawlConfig Url → CrawlSource F Url
  with_changed self config = record self { config = config }

  unfoldable pub depth : CrawlSource F Url → ℕ → CrawlSource F Url
  depth self max_depth = with_changed self (record self.config { max_depth = max_depth })

  unfoldable pub max_pages : CrawlSource F Url → ℕ → CrawlSource F Url
  max_pages self n = with_changed self (record self.config { max_pages = n })

  unfoldable pub scope : CrawlSource F Url → CrawlScope → CrawlSource F Url
  scope self new_scope = with_changed self (record self.config { scope = new_scope })

  unfoldable pub min_delay : CrawlSource F Url → ℕ → CrawlSource F Url
  min_delay self delay = with_changed self (record self.config { min_delay = delay })

  unfoldable pub concurrency : CrawlSource F Url → ℕ → CrawlSource F Url
  concurrency self n = with_changed self (record self.config { concurrency = n })

  unfoldable pub max_retries : CrawlSource F Url → ℕ → CrawlSource F Url
  max_retries self n = with_changed self (record self.config { max_retries = n })

  unfoldable pub respect_robots : CrawlSource F Url → Bool → CrawlSource F Url
  respect_robots self respect = with_changed self (record self.config { respect_robots = respect })

  unfoldable pub require_path : CrawlSource F Url → Bytes → CrawlSource F Url
  require_path self substring = with_changed self (record self.config {
    require_path_contains = self.config.require_path_contains ++ substring ∷ [];
  })

  unfoldable pub accept_extension : CrawlSource F Url → Bytes → CrawlSource F Url
  accept_extension self extension = with_changed self (record self.config {
    accept_extensions = self.config.accept_extensions ++ normalize_ext extension ∷ [];
  })

  unfoldable pub index_path : CrawlSource F Url → Bytes → CrawlSource F Url
  index_path self substring = with_changed self (record self.config {
    index_path_contains = self.config.index_path_contains ++ substring ∷ [];
  })

  unfoldable pub validators : CrawlSource F Url → List (ℕ × Bytes) → CrawlSource F Url
  unfolding collect
  validators self entries =
      with_changed self (record self.config { validators = collect [] entries })

  unfoldable pub known_edges : CrawlSource F Url → List (ℕ × List Url) → CrawlSource F Url
  unfolding collect
  known_edges self entries =
      with_changed self (record self.config { known_edges = collect [] entries })

  unfoldable pub failed_count : CrawlSource F Url → ℕ
  failed_count self = self.failed

  unfoldable pub take_revalidated : CrawlSource F Url → CrawlSource F Url × List Url
  take_revalidated self = (record self { revalidated = [] }, self.revalidated)
