-- ===== src/Extract/Str.antt =====
-- What src/extract/markdown.rs uses of Rust's `str`. A string is its characters, as code points, and
-- its length and indexes count the bytes of their UTF-8 encoding.
use link_r.Prelude.{
  ℕ, ◌+◌, ◌-◌, ◌≤◌, ◌<◌, ◌≡◌, ◌∙◌, refl, ap, inl, inr, Bool, true, false, ◌&&◌, ◌||◌, Option, none,
  some, List, [], ◌∷◌, ◌++◌, if◌then◌else◌, ltb, leb, ◌==◌, nat_eq, arith, Bool-cases,
}

-- `char`
abbrev pub Chars : Type 0
Chars = List ℕ

abbrev pub is_empty : Chars → Bool
is_empty [] = true
is_empty (c ∷ s) = false

-- `char::is_whitespace`: the characters with the property White_Space.
unfoldable pub is_whitespace : ℕ → Bool
is_whitespace c =
    (leb 9 c && leb c 13)
    || (c == 32
        || (c == 133
            || (c == 160
                || (c == 5760
                    || ((leb 8192 c && leb c 8202)
                        || (c == 8232
                            || (c == 8233 || (c == 8239 || (c == 8287 || c == 12288)))))))))

unfoldable pub trim_start : Chars → Chars
trim_start [] = []
trim_start (c ∷ s) = if is_whitespace c then trim_start s else c ∷ s

unfoldable pub trim_end : Chars → Chars
trim_end [] = []
trim_end (c ∷ s) =
    let rest = trim_end s in if is_empty rest && is_whitespace c then [] else c ∷ rest

unfoldable pub trim : Chars → Chars
trim s = trim_start (trim_end s)

abbrev pub starts_line_end : Chars → Bool
starts_line_end [] = false
starts_line_end (c ∷ s) = c == 10

abbrev pub extend : ℕ → List Chars → List Chars
extend c [] = (c ∷ []) ∷ []
extend c (l ∷ ls) = (c ∷ l) ∷ ls

-- `str::lines`: a line ends at a line feed, with a carriage return in front of it or without.
unfoldable pub lines : Chars → List Chars
lines [] = []
lines (c ∷ s) =
    let rest = lines s in
    if c == 10 then [] ∷ rest else if c == 13 && starts_line_end s then rest else extend c rest

-- `char::len_utf8`
unfoldable pub len_utf8 : ℕ → ℕ
len_utf8 c = if ltb c 128 then 1 else if ltb c 2048 then 2 else if ltb c 65536 then 3 else 4

-- `str::len`
unfoldable pub len : Chars → ℕ
len [] = 0
len (c ∷ s) = len_utf8 c + len s

abbrev prepend : ℕ → Option Chars → Option Chars
prepend c none = none
prepend c (some s) = some (c ∷ s)

-- `&s[..k]`, or `none`, a panic, where k is out of range or inside a character.
unfoldable pub slice_to : Chars → ℕ → Option Chars
slice_to [] k = if k == 0 then some [] else none
slice_to (c ∷ s) k =
    let rest = slice_to s (k - len_utf8 c) in
    if k == 0 then some [] else if ltb k (len_utf8 c) then none else prepend c rest

-- Where a slice of the first k bytes ends: behind a character, or inside one.
pub data Cut (s : Chars) (k : ℕ) : Type 0 where
  behind :
      (front rest : Chars) → s ≡ front ++ rest → len front ≡ k → slice_to s k ≡ some front → Cut s k
  inside :
      (front : Chars) (c : ℕ) (rest : Chars)
      → s ≡ front ++ c ∷ rest
      → len front < k
      → k < len front + len_utf8 c
      → slice_to s k ≡ none
      → Cut s k

len_utf8_pos : (c : ℕ) → 1 ≤ len_utf8 c
unfolding len_utf8
len_utf8_pos c = ground arith

cut_front : (s : Chars) (c k : ℕ) → len_utf8 c ≤ k → Cut s (k - len_utf8 c) → Cut (c ∷ s) k
unfolding len slice_to
cut_front s c k fits cut = elim cut [
  | behind front rest e width at ↦
      behind (c ∷ front) rest (ap (λ l. c ∷ l) e) (omega (arith, width))
        (ground (arith, len_utf8_pos c))
  | inside front d rest e before after at ↦
      inside (c ∷ front) d rest (ap (λ l. c ∷ l) e) (omega arith) (omega arith)
        (ground (arith, len_utf8_pos c))
]

-- A slice of at most the length of a string ends behind a character or inside one.
pub cut_at : (s : Chars) (k : ℕ) → k ≤ len s → Cut s k
unfolding len slice_to
cut_at [] k fits = behind [] [] refl (omega arith) (ground arith)
cut_at (c ∷ s) k fits = elim (Bool-cases (k == 0)) [
  | inl nothing ↦ behind [] (c ∷ s) refl (ground arith) (ground arith)
  | inr more ↦ elim (Bool-cases (ltb k (len_utf8 c))) [
    | inl short ↦ inside [] c s refl (ground arith) (ground arith) (ground arith)
    | inr long ↦ cut_front s c k (ground arith) (cut_at s (k - len_utf8 c) (ground arith))
  ]
]

pub slice_to-len : (s : Chars) → slice_to s (len s) ≡ some s
unfolding slice_to len
slice_to-len [] = refl
slice_to-len (c ∷ s) =
    let more : len_utf8 c + len s - len_utf8 c ≡ len s = omega arith in
    let rest : slice_to s (len_utf8 c + len s - len_utf8 c) ≡ some s =
      ap (slice_to s) more ∙ slice_to-len s in
    ground (arith, len_utf8_pos c)
