-- ===== src/External.antt =====
-- What the code takes from other crates, as interfaces: `url::Url`; the streaming xxh3 hasher, the
-- byte codec, the container and the bitmaps of graph-r; zstd; and `f32`. The laws are what their
-- documentation states.
use link_r.Prelude.{
  ◌≤◌, ◌-◌, ◌+◌, none, ◌∷◌, map, replicate, slice, if◌then◌else◌, ℕ, ◌≡◌, Bool, Option, [], ◌++◌,
  ◌||◌, false, true, some, List, any, length, insert_asc, IsAscending, Bytes, ◌==◌, nat_eq, ◌<◌,
  u32_mod, u64_mod,
}
use link_r.Error.{Result, ok}

-- The accessors of `url::Url` that the code reads.
pub record UrlApi (Url : Type 0) : Type 0 where
  pub scheme : Url → Bytes
  pub host_str : Url → Option Bytes
  pub port : Url → Option ℕ
  pub path : Url → Bytes
  pub query : Url → Option Bytes
  pub join : Url → Bytes → Option Url
  pub without_fragment : Url → Url

-- `graph_r::hash::Hasher`: feeding chunks is feeding their concatenation.
pub record Hasher : Type 1 where
  pub State : Type 0
  pub new : State
  pub update : State → Bytes → State
  pub digest64 : State → ℕ
  pub update-nil : (h : State) → update h [] ≡ h
  pub update-append : (h : State) (a b : Bytes) → update (update h a) b ≡ update h (a ++ b)

-- `f32`: no law is assumed of the arithmetic, and the comparisons are all false on a NaN.
-- `sort_panics` is whether `slice::sort_by` panics on these ids with scores, by descending score and
-- then id: it may where the comparator is not a total order.
pub record Float (F : Type 0) : Type 0 where
  pub zero : F
  pub half : F
  pub one : F
  pub add : F → F → F
  pub sub : F → F → F
  pub mul : F → F → F
  pub div : F → F → F
  pub neg : F → F
  pub sqrt : F → F
  pub ln : F → F
  pub max : F → F → F
  pub gt : F → F → Bool
  pub eq : F → F → Bool
  pub from_nat : ℕ → F
  pub sort_panics : List (ℕ × F) → Bool

-- What the comparison of floats satisfies where none is a NaN.
pub record IsOrdered (F : Type 0) ⦃f : Float F⦄ : Type 0 where
  pub asym : (a b : F) → f.gt a b ≡ true → f.gt b a ≡ false
  pub cotrans : (a b c : F) → f.gt a b ≡ false → f.gt b c ≡ false → f.gt a c ≡ false
  pub eq_of_not_gt : (a b : F) → f.gt a b ≡ false → f.gt b a ≡ false → f.eq a b ≡ true
  pub sorts : (hits : List (ℕ × F)) → f.sort_panics hits ≡ false

-- `roaring::RoaringBitmap` as a set of document ids, which it iterates in ascending order, and its
-- serialized form.
pub record Bitmap : Type 1 where
  pub Set : Type 0
  pub new : Set
  pub insert : Set → ℕ → Set
  pub contains : Set → ℕ → Bool
  pub iter : Set → List ℕ
  pub len : Set → ℕ
  pub serialize : Set → Bytes
  pub deserialize : Bytes → Option Set
  pub contains-new : (i : ℕ) → contains new i ≡ false
  pub contains-insert : (s : Set) (i j : ℕ) → contains (insert s i) j ≡ (i == j || contains s j)
  pub iter-new : iter new ≡ []
  pub iter-insert : (s : Set) (i : ℕ) → iter (insert s i) ≡ insert_asc i (iter s)
  pub iter-IsAscending : (s : Set) → IsAscending (iter s)
  pub contains-iter : (s : Set) (i : ℕ) → contains s i ≡ any (λ j. j == i) (iter s)
  pub len-iter : (s : Set) → len s ≡ length (iter s)
  pub deserialize-serialize : (s : Set) → deserialize (serialize s) ≡ some s

-- `graph_r::bytesio`: the bytes that `put_u8`, `put_u16`, `put_u32`, `put_u64` and `put_len_prefixed` append
-- to a buffer, and the reads of `Reader`, whose state is the bytes that remain. What was written
-- reads back; a text is UTF-8 that the length prefix can measure.
pub record ByteIo : Type 1 where
  pub IsText : Bytes → Type 0
  pub bytes_u8 : ℕ → Bytes
  pub bytes_u16 : ℕ → Bytes
  pub bytes_u32 : ℕ → Bytes
  pub bytes_u64 : ℕ → Bytes
  pub bytes_blob : Bytes → Bytes
  pub u8 : Bytes → Result (ℕ × Bytes)
  pub u16 : Bytes → Result (ℕ × Bytes)
  pub u32 : Bytes → Result (ℕ × Bytes)
  pub u64 : Bytes → Result (ℕ × Bytes)
  pub blob : Bytes → Result (Bytes × Bytes)
  pub len_prefixed : Bytes → Result (Bytes × Bytes)
  pub u8-bytes : (v : ℕ) (rest : Bytes) → v < 256 → u8 (bytes_u8 v ++ rest) ≡ ok (v, rest)
  pub u16-bytes : (v : ℕ) (rest : Bytes) → v < 65536 → u16 (bytes_u16 v ++ rest) ≡ ok (v, rest)
  pub u32-bytes : (v : ℕ) (rest : Bytes) → v < u32_mod → u32 (bytes_u32 v ++ rest) ≡ ok (v, rest)
  pub u64-bytes : (v : ℕ) (rest : Bytes) → v < u64_mod → u64 (bytes_u64 v ++ rest) ≡ ok (v, rest)
  pub blob-bytes : (v rest : Bytes) → IsText v → blob (bytes_blob v ++ rest) ≡ ok (v, rest)
  pub len_prefixed-bytes :
      (v rest : Bytes) → length v < u32_mod → len_prefixed (bytes_blob v ++ rest) ≡ ok (v, rest)

-- `put_f32` and `Reader::f32`, which keep the bits.
pub record FloatIo (F : Type 0) : Type 0 where
  pub bytes_f32 : F → Bytes
  pub f32 : Bytes → Result (F × Bytes)
  pub f32-bytes : (v : F) (rest : Bytes) → f32 (bytes_f32 v ++ rest) ≡ ok (v, rest)

-- `graph_r::mmap::cast_f32`: the floats of a byte range, or an error where it is not aligned.
pub record FloatMap (F : Type 0) : Type 0 where
  pub cast_f32 : Bytes → Result (List F)

-- `get_u32` and `get_u64` of `graph_r::bytesio`: reads at an offset.
pub record ByteAt ⦃io : ByteIo⦄ : Type 0 where
  pub get_u32 : Bytes → ℕ → ℕ
  pub get_u64 : Bytes → ℕ → ℕ
  pub length-bytes_u32 : (v : ℕ) → length (io.bytes_u32 v) ≡ 4
  pub length-bytes_u64 : (v : ℕ) → length (io.bytes_u64 v) ≡ 8
  pub get_u32-bytes : (rest : Bytes) (v : ℕ) → v < u32_mod → get_u32 (io.bytes_u32 v ++ rest) 0 ≡ v
  pub get_u64-bytes : (rest : Bytes) (v : ℕ) → v < u64_mod → get_u64 (io.bytes_u64 v ++ rest) 0 ≡ v
  pub get_u32-append : (l o : Bytes) (k : ℕ) → get_u32 (l ++ o) (length l + k) ≡ get_u32 o k
  pub get_u64-append : (l o : Bytes) (k : ℕ) → get_u64 (l ++ o) (length l + k) ≡ get_u64 o k

-- The zstd library: data decompresses from its compressed form into a capacity that holds it.
pub record Zstd : Type 0 where
  pub compress : Bytes → ℕ → Bytes
  pub decompress : Bytes → ℕ → Option Bytes
  pub decompress-compress :
      (content : Bytes) (level capacity : ℕ)
      → length content ≤ capacity
      → decompress (compress content level) capacity ≡ some content

-- A section that a container's writer is given: its kind, its flags and its bytes.
pub record Section : Type 0 where
  pub kind : ℕ
  pub flags : ℕ
  pub bytes : Bytes

-- The stored flags and bytes of a kind: an empty section is left out.
unfoldable pub stored : ℕ → List Section → Option (ℕ × Bytes)
stored k [] = none
stored k (s ∷ sections) =
    let rest = stored k sections in
    if s.kind == k then if length s.bytes == 0 then rest else some (s.flags, s.bytes) else rest

-- `graph_r::container`: the writer's file, and the directory that the parser reads from it. What a
-- writer was given reads back, when its sections have different kinds.
pub record Container : Type 1 where
  pub Dir : Type 0
  pub owner_len : ℕ
  pub owner_room : 32 ≤ owner_len
  pub finish : ℕ → ℕ → ℕ → Bytes → List Section → Bytes
  pub parse : ℕ → ℕ → Bytes → Result Dir
  pub flags : Dir → ℕ
  pub owner : Dir → Bytes
  pub has : Dir → ℕ → Bool
  pub span : Dir → ℕ → ℕ × ℕ
  pub section : Dir → Bytes → ℕ → Bytes
  pub section_flags : Dir → ℕ → ℕ
  pub parse-finish :
      (magic version h : ℕ) (o : Bytes) (sections : List Section)
      → h < 65536
      → length o ≤ owner_len
      → IsAscending (map (λ s. s.kind) sections)
      → (d : Dir) × (parse magic version (finish magic version h o sections) ≡ ok d)
        × (flags d ≡ h)
        × (owner d ≡ o ++ replicate (owner_len - length o) 0)
        × ((k : ℕ)
            → (if has d k
                then some (section_flags d k, section d (finish magic version h o sections) k)
                else none)
              ≡ stored k sections)
        × ((k : ℕ)
            → has d k ≡ true
            → (slice ((span d k).0) ((span d k).1) (finish magic version h o sections)
                ≡ section d (finish magic version h o sections) k)
              × ((span d k).1 ≡ length (section d (finish magic version h o sections) k))
              × ((span d k).0 + (span d k).1 ≤ length (finish magic version h o sections)))

-- `f32::to_bits`, and the four bytes of a float.
pub record FloatBits (F : Type 0) ⦃fio : FloatIo F⦄ : Type 0 where
  pub to_bits : F → ℕ
  pub to_bits_lt : (v : F) → to_bits v < u32_mod
  pub length-bytes_f32 : (v : F) → length (fio.bytes_f32 v) ≡ 4
