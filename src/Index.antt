-- ===== src/Index.antt =====
-- src/index: the hybrid index.
pub mod Dense
pub mod Meta
pub mod Builder
pub mod Graph
pub mod Ranking
pub mod Fuse
pub mod Sparse
pub mod Store
pub mod Search
pub mod Format
pub mod Image
