-- ===== src/Crawl.antt =====
-- src/source/crawl.rs: the recursive crawler.
pub mod Scope
pub mod Pacer
pub mod Fetch
pub mod State
pub mod Handler
pub mod Steps
pub mod Fill
pub mod Budget
pub mod Tracked
pub mod Once
pub mod Follows
pub mod Reach
pub mod Source
