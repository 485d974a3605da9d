-- ===== src/Examples/Instances.antt =====
-- Concrete byte readers and writers, a compressor that stores, and the floats of the examples. A
-- number of a wide type is one symbol and zeros up to its width.
use link_r.Prelude.{
  ℕ, zero, suc, ◌+◌, ◌%◌, ◌≡◌, refl, some, [], ◌∷◌, ◌++◌, Bytes, length, arith, u32_mod,
}
use native.Mathlib.Nat.{zero-add, suc-add}
use link_r.Error.{Error, Result, ok, err, ◌>>=◌}
use link_r.External.{ByteIo, ByteAt, FloatIo, FloatBits, Zstd}

abbrev pub symbol : Bytes → Result (ℕ × Bytes)
symbol [] = err (Error.format "end of input")
symbol (v ∷ r) = ok (v, r)

-- A number and three zeros, or seven.
abbrev pub symbol4 : Bytes → Result (ℕ × Bytes)
symbol4 (v ∷ a ∷ b ∷ c ∷ r) = ok (v, r)
symbol4 _ = err (Error.format "end of input")

abbrev pub symbol8 : Bytes → Result (ℕ × Bytes)
symbol8 (v ∷ a ∷ b ∷ c ∷ d ∷ e ∷ f ∷ g ∷ r) = ok (v, r)
symbol8 _ = err (Error.format "end of input")

abbrev pub split_at : ℕ → Bytes → Result (Bytes × Bytes)
split_at zero r = ok ([], r)
split_at (suc n) [] = err (Error.format "end of input")
split_at (suc n) (c ∷ r) = split_at n r >>= λ p. ok (c ∷ p.0, p.1)

pub split_at-length : (v rest : Bytes) → split_at (length v) (v ++ rest) ≡ ok (v, rest)
split_at-length [] rest = refl
split_at-length (c ∷ v) rest = rw (split_at-length v rest) refl

instance abbrev pub byte_io : ByteIo
byte_io = record {
  IsText = λ v. Unit;
  bytes_u8 = λ v. v ∷ [];
  bytes_u16 = λ v. v ∷ [];
  bytes_u32 = λ v. v ∷ 0 ∷ 0 ∷ 0 ∷ [];
  bytes_u64 = λ v. v ∷ 0 ∷ 0 ∷ 0 ∷ 0 ∷ 0 ∷ 0 ∷ 0 ∷ [];
  bytes_blob = λ v. length v ∷ v;
  u8 = symbol;
  u16 = symbol;
  u32 = symbol4;
  u64 = symbol8;
  blob = λ r. symbol r >>= λ p. split_at p.0 p.1;
  len_prefixed = λ r. symbol r >>= λ p. split_at p.0 p.1;
  u8-bytes = λ v rest small. refl;
  u16-bytes = λ v rest small. refl;
  u32-bytes = λ v rest small. refl;
  u64-bytes = λ v rest small. refl;
  blob-bytes = λ v rest text. split_at-length v rest;
  len_prefixed-bytes = λ v rest fits. split_at-length v rest;
}

abbrev pub symbol_at : Bytes → ℕ → ℕ
symbol_at [] k = 0
symbol_at (v ∷ o) zero = v
symbol_at (v ∷ o) (suc k) = symbol_at o k

pub symbol_at-append : (l o : Bytes) (k : ℕ) → symbol_at (l ++ o) (length l + k) ≡ symbol_at o k
symbol_at-append [] o k = rw zero-add refl
symbol_at-append (v ∷ l) o k = rw (suc-add (length l) k) (symbol_at-append l o k)

instance abbrev pub byte_at : ByteAt
byte_at = record {
  get_u32 = symbol_at;
  get_u64 = symbol_at;
  length-bytes_u32 = λ v. refl;
  length-bytes_u64 = λ v. refl;
  get_u32-bytes = λ rest v small. refl;
  get_u64-bytes = λ rest v small. refl;
  get_u32-append = symbol_at-append;
  get_u64-append = symbol_at-append;
}

instance abbrev pub float_io : FloatIo ℕ
float_io = record { bytes_f32 = λ v. v ∷ 0 ∷ 0 ∷ 0 ∷ []; f32 = symbol4; f32-bytes = λ v rest. refl }

instance abbrev pub float_bits : FloatBits ℕ
float_bits = record {
  to_bits = λ v. v % u32_mod;
  to_bits_lt = λ v. omega arith;
  length-bytes_f32 = λ v. refl;
}

instance abbrev pub zstd : Zstd
zstd = record {
  compress = λ content level. content;
  decompress = λ content capacity. some content;
  decompress-compress = λ content level capacity fits. refl;
}
