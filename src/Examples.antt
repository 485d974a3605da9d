-- ===== src/Examples.antt =====
-- The theorems at concrete inputs.
pub mod Setup
pub mod Instances
pub mod Layout
pub mod Containers
mod Extracts
mod Images
mod Urls
mod Builders
mod Crawls
pub mod Codecs
mod Graphs
mod Search
