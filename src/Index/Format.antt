-- ===== src/Index/Format.antt =====
-- src/index/format.rs: the file of an index over the container of graph-r, and the bounds on a
-- compressed section.
pub mod Sections
use link_r.Prelude.{
  ℕ, ◌+◌, ◌-◌, ◌*◌, ◌/◌, ◌%◌, Bool, true, false, not, Option, none, some, List, [], ◌∷◌, ◌++◌,
  Bytes, any, length, drop, min, ltb, if◌then◌else◌, ◌==◌, nat_eq, u64_mod,
}
use link_r.Error.{Error, Result, ok, err, ◌>>=◌}
use link_r.External.{ByteIo, ByteAt, Zstd, Container, Section}

abbrev pub magic : ℕ
magic = 1380666956

abbrev pub version : ℕ
version = 2

-- `OWNER_USED`
abbrev pub owner_used : ℕ
owner_used = 32

-- The flag bits of the header.
abbrev pub vectors_normalized : ℕ
vectors_normalized = 1

abbrev pub meta_freshness : ℕ
meta_freshness = 2

abbrev pub link_graph : ℕ
link_graph = 4

-- `sflags::ZSTD`
abbrev pub zstd : ℕ
zstd = 1

-- `flags & bit != 0`, for a bit that is a power of two.
unfoldable pub has_flag : ℕ → ℕ → Bool
has_flag flags bit = (flags / bit) % 2 == 1

pub data SectionKind : Type 0 where
  doc_meta dense bm25 edges : SectionKind

-- `kind as u16`
unfoldable pub as_u16 : SectionKind → ℕ
as_u16 doc_meta = 3
as_u16 dense = 5
as_u16 bm25 = 6
as_u16 edges = 7

pub record Header : Type 0 where
  pub flags : ℕ
  pub dim : ℕ
  pub doc_count : ℕ
  pub metric : ℕ
  pub embedder_id : ℕ
  pub bm25_k1_bits : ℕ
  pub bm25_b_bits : ℕ
  pub avgdl_bits : ℕ

-- The floats of the header are written by their bits.
unfoldable pub owner : ⦃io : ByteIo⦄ → Header → Bytes
owner ⦃io⦄ self =
    io.bytes_u32 self.dim
    ++ (io.bytes_u32 self.doc_count
        ++ (io.bytes_u32 self.metric
            ++ (io.bytes_u64 self.embedder_id
                ++ (io.bytes_u32 self.bm25_k1_bits
                    ++ (io.bytes_u32 self.bm25_b_bits ++ io.bytes_u32 self.avgdl_bits)))))

module _ ⦃io : ByteIo⦄ ⦃at : ByteAt⦄ where
  unfoldable pub header_of : ℕ → Bytes → Header
  header_of flags o = record {
    flags = flags;
    dim = at.get_u32 o 0;
    doc_count = at.get_u32 o 4;
    metric = at.get_u32 o 8;
    embedder_id = at.get_u64 o 12;
    bm25_k1_bits = at.get_u32 o 20;
    bm25_b_bits = at.get_u32 o 24;
    avgdl_bits = at.get_u32 o 28;
  }

  unfoldable pub from_owner : ℕ → Bytes → Result Header
  from_owner flags o =
      if any (λ b. not (b == 0)) (drop owner_used o)
      then err (Error.format "reserved header bytes are non-zero")
      else ok (header_of flags o)

-- `IndexWriter::new`, `add_section` for each section and `finish`.
unfoldable pub write : ⦃io : ByteIo⦄ ⦃c : Container⦄ → Header → List Section → Bytes
write ⦃io⦄ ⦃c⦄ header sections = c.finish magic version header.flags (owner header) sections

pub record IndexFile (Dir : Type 0) : Type 0 where
  pub header : Header
  pub bytes : Bytes
  pub dir : Dir

module _ ⦃io : ByteIo⦄ ⦃at : ByteAt⦄ ⦃c : Container⦄ where
  unfoldable pub parse : Bytes → Result (IndexFile c.Dir)
  parse bytes = do
    dir ← c.parse magic version bytes
    header ← from_owner (c.flags dir) (c.owner dir)
    ok (record { header = header; bytes = bytes; dir = dir })

  unfoldable pub validate : Bytes → Result {0} Unit
  validate bytes = parse bytes >>= λ file. ok tt

-- `MAX_DECOMPRESSED` and `MAX_ZSTD_RATIO`
abbrev pub max_decompressed : ℕ
max_decompressed = 536870912

abbrev pub max_zstd_ratio : ℕ
max_zstd_ratio = 1024

-- `usize` has 64 bits.
unfoldable pub decompressed_capacity : ℕ → ℕ → Result ℕ
decompressed_capacity declared compressed_len =
    let ratio_bound = min (compressed_len * max_zstd_ratio) (u64_mod - 1) in
    let bound = min ratio_bound max_decompressed in
    if ltb bound declared
    then err (Error.format "zstd section declares too many bytes")
    else if ltb declared u64_mod
    then ok declared
    else err (Error.format "zstd section length overflows usize")

module _ ⦃io : ByteIo⦄ ⦃at : ByteAt⦄ ⦃z : Zstd⦄ where
  unfoldable pub decoded : Option Bytes → Result Bytes
  decoded none = err (Error.format "zstd decode")
  decoded (some bytes) = ok bytes

  -- The bytes of a compressed section: the length, then the data.
  unfoldable pub decompressed : Bytes → Result Bytes
  decompressed raw =
      if ltb (length raw) 8 then err (Error.format "zstd section missing length prefix") else (do
        capacity ← decompressed_capacity (at.get_u64 raw 0) (length (drop 8 raw))
        decoded (z.decompress (drop 8 raw) capacity))

unfoldable pub zstd_section : ⦃io : ByteIo⦄ ⦃z : Zstd⦄ → Bytes → ℕ → Bytes
zstd_section ⦃io⦄ ⦃z⦄ content level =
    io.bytes_u64 (length content % u64_mod) ++ z.compress content level

module _ ⦃c : Container⦄ where
  unfoldable pub section_range : IndexFile c.Dir → SectionKind → Option (ℕ × ℕ)
  section_range self kind =
      if c.has self.dir (as_u16 kind) then some (c.span self.dir (as_u16 kind)) else none

  unfoldable pub section_raw : IndexFile c.Dir → SectionKind → Result (Option Bytes)
  section_raw self kind =
      let k = as_u16 kind in
      if c.has self.dir k
      then if has_flag (c.section_flags self.dir k) zstd
        then err (Error.format "expected uncompressed section")
        else ok (some (c.section self.dir self.bytes k))
      else ok none

  unfoldable pub section :
      ⦃io : ByteIo⦄ ⦃at : ByteAt⦄ ⦃z : Zstd⦄ → IndexFile c.Dir → SectionKind → Result (Option Bytes)
  section self kind =
      let k = as_u16 kind in
      if c.has self.dir k
      then if has_flag (c.section_flags self.dir k) zstd
        then (decompressed (c.section self.dir self.bytes k) >>= λ bytes. ok (some bytes))
        else ok (some (c.section self.dir self.bytes k))
      else ok none
