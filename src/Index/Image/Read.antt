-- ===== src/Index/Image/Read.antt =====
-- The sections of an index that was written, as the reader finds them (src/index/format.rs).
use link_r.Prelude.{
  ℕ, ◌*◌, ◌%◌, ◌<◌, ◌≤◌, ◌≡◌, refl, ap, inl, inr, true, false, ◌&&◌, Option, none, some, List, [],
  ◌∷◌, Bytes, length, length-append, replicate, leb, ◌==◌, nat_eq, arith, u64_mod, if◌then◌else◌,
  Bool-cases,
}
use link_r.Error.{ok}
use link_r.External.{ByteIo, ByteAt, FloatIo, FloatBits, Zstd, Container}
use link_r.Metric.{Metric, normalizes}
use link_r.Index.Format.{
  IndexFile, SectionKind, as_u16, has_flag, meta_freshness, link_graph, zstd, section, zstd_section,
  max_zstd_ratio, max_decompressed,
}
use link_r.Index.Format.Sections.{decompressed-zstd_section}
use link_r.Index.Image.{has_edges, flags_of, put_f32s}

-- What the reader finds of a kind.
abbrev pub found : ⦃c : Container⦄ → c.Dir → Bytes → ℕ → Option (ℕ × Bytes)
found ⦃c⦄ d image k = if c.has d k then some (c.section_flags d k, c.section d image k) else none

module _ ⦃c : Container⦄ (d : c.Dir) (image : Bytes) where
  pub has_section :
      (k fl : ℕ) (by : Bytes)
      → found d image k ≡ some (fl, by)
      → (c.has d k ≡ true) × (c.section_flags d k ≡ fl) × (c.section d image k ≡ by)
  has_section k fl by e = elim (Bool-cases (c.has d k)) [
    | inl here ↦ (here, ground (arith, e, here), ground (arith, e, here))
    | inr gone ↦ absurd (ground (arith, e, gone))
  ]

  pub lacks_section : (k : ℕ) → found d image k ≡ none → c.has d k ≡ false
  lacks_section k e = elim (Bool-cases (c.has d k)) [
    | inl here ↦ absurd (ground (arith, e, here))
    | inr gone ↦ gone
  ]

-- The data is within the bounds of the reader.
pub record Packs ⦃z : Zstd⦄ (content : Bytes) : Type 0 where
  pub ratio : length content ≤ length (z.compress content 3) * max_zstd_ratio
  pub max : length content ≤ max_decompressed

module _ ⦃io : ByteIo⦄ ⦃at : ByteAt⦄ ⦃z : Zstd⦄ where
  pub zstd_section_nonempty : (content : Bytes) → (length (zstd_section content 3) == 0) ≡ false
  unfolding zstd_section
  zstd_section_nonempty content = ground (
    arith,
    length-append (io.bytes_u64 (length content % u64_mod)) (z.compress content 3),
    at.length-bytes_u64 (length content % u64_mod),
  )

  module _ ⦃c : Container⦄ (file : IndexFile c.Dir) where
    pub section_compressed :
        (kind : SectionKind) (content : Bytes)
        → found file.dir file.bytes (as_u16 kind) ≡ some (zstd, zstd_section content 3)
        → Packs content
        → section file kind ≡ ok (some content)
    unfolding section has_flag
    section_compressed kind content e packs =
        let (here, flags, bytes) = has_section file.dir file.bytes (as_u16 kind) zstd _ e in
        let within : (leb (length content) (length (z.compress content 3) * max_zstd_ratio)
              && leb (length content) max_decompressed)
            ≡ true =
          ground (arith, packs.ratio, packs.max) in
        let read = decompressed-zstd_section content 3 (omega (arith, packs.max)) in
        rw (here, flags, bytes, read, within) refl

    pub section_plain :
        (kind : SectionKind) (by : Bytes)
        → found file.dir file.bytes (as_u16 kind) ≡ some (0, by)
        → section file kind ≡ ok (some by)
    unfolding section has_flag
    section_plain kind by e =
        let (here, flags, bytes) = has_section file.dir file.bytes (as_u16 kind) 0 by e in
        rw (here, flags, bytes) refl

pub flags_of-freshness :
    (m : Metric) (e : List (List ℕ)) → has_flag (flags_of m e) meta_freshness ≡ true
unfolding has_flag flags_of
flags_of-freshness m e = elim (Bool-cases (has_edges e)) [
  | inl linked ↦ elim (Bool-cases (normalizes m)) [
    | inl unit ↦ rw (linked, unit) refl
    | inr raw ↦ rw (linked, raw) refl
  ]
  | inr plain ↦ elim (Bool-cases (normalizes m)) [
    | inl unit ↦ rw (plain, unit) refl
    | inr raw ↦ rw (plain, raw) refl
  ]
]

pub flags_of-edges :
    (m : Metric) (e : List (List ℕ)) → has_flag (flags_of m e) link_graph ≡ has_edges e
unfolding has_flag flags_of
flags_of-edges m e = elim (Bool-cases (has_edges e)) [
  | inl linked ↦ elim (Bool-cases (normalizes m)) [
    | inl unit ↦ rw (linked, unit) refl
    | inr raw ↦ rw (linked, raw) refl
  ]
  | inr plain ↦ elim (Bool-cases (normalizes m)) [
    | inl unit ↦ rw (plain, unit) refl
    | inr raw ↦ rw (plain, raw) refl
  ]
]

pub flags_of_lt : (m : Metric) (e : List (List ℕ)) → flags_of m e < 65536
unfolding flags_of
flags_of_lt m e = ground arith

-- Without an edge all edge lists are empty.
pub has_edges_none : (e : List (List ℕ)) → has_edges e ≡ false → e ≡ replicate (length e) []
unfolding has_edges
has_edges_none [] h = refl
has_edges_none ([] ∷ e) h = ap (λ l. [] ∷ l) (has_edges_none e h)
has_edges_none ((k ∷ l) ∷ e) h = absurd (ground arith)

pub length-put_f32s :
    {F : Type 0} ⦃io : ByteIo⦄ ⦃fio : FloatIo F⦄ ⦃fb : FloatBits F⦄ (l : List F)
    → length (put_f32s l) ≡ length l * 4
unfolding put_f32s
length-put_f32s [] = refl
length-put_f32s ⦃fio = fio⦄ ⦃fb = fb⦄ (x ∷ l) =
    omega (
      arith,
      length-append (fio.bytes_f32 x) (put_f32s l),
      fb.length-bytes_f32 x,
      length-put_f32s l,
    )
