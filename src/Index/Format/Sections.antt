-- ===== src/Index/Format/Sections.antt =====
-- What a compressed section reads back as (src/index/format.rs).
use link_r.Prelude.{
  ℕ, ◌*◌, ◌%◌, ◌<◌, ◌≡◌, refl, inl, inr, false, [], ◌∷◌, ◌++◌, Bytes, length, length-append, drop,
  ltb, leb, ◌&&◌, subst, Bool-cases, arith, u64_mod, if◌then◌else◌,
}
use link_r.Error.{Error, ok, err}
use link_r.External.{ByteIo, ByteAt, Zstd}
use link_r.Index.Format.{
  max_decompressed, max_zstd_ratio, decompressed_capacity, decoded, decompressed, zstd_section,
}

drop-append : (l r : Bytes) → drop (length l) (l ++ r) ≡ r
drop-append [] r = refl
drop-append (c ∷ l) r = drop-append l r

-- A declared length is granted exactly when it is within both bounds.
decompressed_capacity_lem :
    (declared compressed_len : ℕ)
    → decompressed_capacity declared compressed_len ≡ (
        if leb declared (compressed_len * max_zstd_ratio) && leb declared max_decompressed
        then ok declared
        else err (Error.format "zstd section declares too many bytes"))
unfolding decompressed_capacity
decompressed_capacity_lem declared compressed_len = ground arith

module _ ⦃io : ByteIo⦄ ⦃at : ByteAt⦄ ⦃z : Zstd⦄ where
  -- A section that the writer compresses reads back when it has at most 512 MiB and at most 1024
  -- times the bytes that it compresses to; a longer one is written all the same, and the reader
  -- refuses it.
  pub decompressed-zstd_section :
      (content : Bytes) (level : ℕ)
      → length content < u64_mod
      → decompressed (zstd_section content level) ≡ (
          if leb (length content) (length (z.compress content level) * max_zstd_ratio)
            && leb (length content) max_decompressed
          then ok content
          else err (Error.format "zstd section declares too many bytes"))
  unfolding decompressed zstd_section decoded
  decompressed-zstd_section content level fits =
      let n = length content in
      let packed = z.compress content level in
      let same : n % u64_mod ≡ n = omega arith in
      let prefix : length (io.bytes_u64 n) ≡ 8 = at.length-bytes_u64 n in
      let long : ltb (length (io.bytes_u64 n ++ packed)) 8 ≡ false =
        ground (arith, length-append (io.bytes_u64 n) packed) in
      let behind : drop 8 (io.bytes_u64 n ++ packed) ≡ packed =
        subst (λ k. drop k (io.bytes_u64 n ++ packed) ≡ packed) prefix
          (drop-append (io.bytes_u64 n) packed) in
      let declared : at.get_u64 (io.bytes_u64 n ++ packed) 0 ≡ n = at.get_u64-bytes packed n fits in
      let capacity = decompressed_capacity_lem n (length packed) in
      elim (Bool-cases (leb n (length packed * max_zstd_ratio) && leb n max_decompressed)) [
        | inl within ↦
            rw
              (
                same,
                long,
                behind,
                declared,
                capacity,
                within,
                z.decompress-compress content level n (omega arith),
              )
              refl
        | inr beyond ↦ rw (same, long, behind, declared, capacity, beyond) refl
      ]
