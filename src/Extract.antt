-- ===== src/Extract.antt =====
-- src/extract: extraction of descriptors from documents.
pub mod Str
pub mod Plain
pub mod Lines
pub mod Title
pub mod Descriptor
