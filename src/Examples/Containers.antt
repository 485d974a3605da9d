-- ===== src/Examples/Containers.antt =====
-- A container with a header of its owner's bytes in front of the sections.
use link_r.Prelude.{
  ℕ, ◌+◌, ◌-◌, ◌<◌, ◌≤◌, ◌≡◌, refl, ◌∙◌, true, Option, none, some, List, [], ◌∷◌, ◌++◌, Bytes,
  length, length-append, length-take, length-drop, take, drop, slice, replicate, map, is_some,
  arith, if◌then◌else◌, nat_eq, IsAscending, subst,
}
use link_r.Error.{Error, Result, ok, err}
use link_r.External.{Container, Section, stored}
use link_r.Examples.Setup.{bitmap}
use link_r.Examples.Instances.{byte_io, byte_at, float_io, float_bits, zstd}
use link_r.Examples.Layout.{
  put_all, Entry, walk, lookup, read, drop-length, take-length, IsInside, Agrees, walk_put,
}

pub record Dir : Type 0 where
  pub flags : ℕ
  pub owner : Bytes
  pub table : List Entry

abbrev pub finish : ℕ → ℕ → ℕ → Bytes → List Section → Bytes
finish magic version h o sections = h ∷ length o ∷ (o ++ put_all sections)

-- The owner area has 64 bytes.
abbrev pub parse_dir : ℕ → ℕ → Bytes → Result Dir
parse_dir magic version (h ∷ n ∷ r) = ok (record {
  flags = h;
  owner = take n r ++ replicate (64 - n) 0;
  table = walk (length r) (2 + n) (drop n r);
})
parse_dir magic version _ = err (Error.format "end of input")

abbrev pub flags_or : Option Entry → ℕ
flags_or none = 0
flags_or (some e) = e.flags

abbrev pub span_or : Option Entry → ℕ × ℕ
span_or none = (0, 0)
span_or (some e) = (e.start, e.len)

abbrev pub section_or : Bytes → Option Entry → Bytes
section_or image none = []
section_or image (some e) = slice e.start e.len image

pub read_parts :
    (image : Bytes) (e : Option Entry)
    → (if is_some e then some (flags_or e, section_or image e) else none) ≡ read image e
read_parts image none = refl
read_parts image (some e) = refl

pub spans_or :
    (image : Bytes) (e : Option Entry)
    → IsInside image e
    → is_some e ≡ true
    → (slice ((span_or e).0) ((span_or e).1) image ≡ section_or image e)
      × ((span_or e).1 ≡ length (section_or image e))
      × ((span_or e).0 + (span_or e).1 ≤ length image)
spans_or image none inside h = absurd (ground arith)
spans_or image (some e) inside h =
    (refl, omega (arith, length-take e.len (drop e.start image), length-drop e.start image), inside)

pub parse-finish :
    (magic version h : ℕ) (o : Bytes) (sections : List Section)
    → h < 65536
    → length o ≤ 64
    → IsAscending (map (λ s. s.kind) sections)
    → (d : Dir) × (parse_dir magic version (finish magic version h o sections) ≡ ok d)
      × (d.flags ≡ h)
      × (d.owner ≡ o ++ replicate (64 - length o) 0)
      × ((k : ℕ)
          → (if is_some (lookup d.table k)
              then some (
                flags_or (lookup d.table k),
                section_or (finish magic version h o sections) (lookup d.table k),
              )
              else none)
            ≡ stored k sections)
      × ((k : ℕ)
          → is_some (lookup d.table k) ≡ true
          → (slice
                ((span_or (lookup d.table k)).0)
                ((span_or (lookup d.table k)).1)
                (finish magic version h o sections)
              ≡ section_or (finish magic version h o sections) (lookup d.table k))
            × ((span_or (lookup d.table k)).1
                ≡ length (section_or (finish magic version h o sections) (lookup d.table k)))
            × ((span_or (lookup d.table k)).0 + (span_or (lookup d.table k)).1
                ≤ length (finish magic version h o sections)))
parse-finish magic version h o sections small room kinds =
    let image = finish magic version h o sections in
    let r = o ++ put_all sections in
    let before = h ∷ length o ∷ o in
    let start : length before ≡ 2 + length o = omega arith in
    let table = walk (length r) (2 + length o) (put_all sections) in
    let agrees : (k : ℕ) → Agrees image (lookup table k) (stored k sections) = λ k.
      subst
        (λ p. Agrees image (lookup (walk (length r) p (put_all sections)) k) (stored k sections))
        start
        (walk_put before sections (length r) k
          (omega (arith, length-append o (put_all sections)))) in
    (
      record { flags = h; owner = o ++ replicate (64 - length o) 0; table = table },
      rw (take-length o (put_all sections), drop-length o (put_all sections)) refl,
      refl,
      refl,
      λ k. read_parts image (lookup table k) ∙ (agrees k).0,
      λ k here. spans_or image (lookup table k) (agrees k).1 here,
    )

instance abbrev pub container : Container
container = record {
  Dir = Dir;
  owner_len = 64;
  owner_room = omega arith;
  finish = finish;
  parse = parse_dir;
  flags = λ d. d.flags;
  owner = λ d. d.owner;
  has = λ d k. is_some (lookup d.table k);
  span = λ d k. span_or (lookup d.table k);
  section = λ d image k. section_or image (lookup d.table k);
  section_flags = λ d k. flags_or (lookup d.table k);
  parse-finish = parse-finish;
}
