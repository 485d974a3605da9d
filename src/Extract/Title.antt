-- ===== src/Extract/Title.antt =====
-- What the title of a plain text is (src/extract/markdown.rs).
use link_r.Prelude.{
  ℕ, ◌+◌, ◌≤◌, ◌<◌, ◌≡◌, ◌⊎◌, inl, inr, Option, none, some, List, ◌∷◌, ◌++◌, min, arith, leb, sym,
  ap, subst, ◌∙◌, Bool-cases,
}
use link_r.Error.{Result, ok, panic}
use link_r.Extract.Str.{Chars, lines, len, len_utf8, slice_to, behind, inside, cut_at, slice_to-len}
use link_r.Prelude.{All}
use link_r.Extract.Lines.{Lines, lines-Lines, IsBlank, FirstLine, first_line-cases}
use link_r.Extract.Plain.{title_slice, title_of, plain_title}

-- The title of a text whose first line that is not blank, trimmed, is l: the whole of it, or its
-- first 120 bytes, or a panic where those end inside a character.
pub data Titled (l : Chars) (title : Result (Option Chars)) : Type 0 where
  whole : len l ≤ 120 → title ≡ ok (some l) → Titled l title
  first_bytes :
      (front rest : Chars)
      → l ≡ front ++ rest
      → len front ≡ 120
      → title ≡ ok (some front)
      → Titled l title
  panics :
      (front : Chars) (c : ℕ) (rest : Chars)
      → l ≡ front ++ c ∷ rest
      → len front < 120
      → 120 < len front + len_utf8 c
      → title ≡ panic
      → Titled l title

title_of-Titled : (l : Chars) → Titled l (title_of (some l))
unfolding title_of
title_of-Titled l = elim (Bool-cases (leb (len l) 120)) [
  | inl short ↦
      let k : min (len l) 120 ≡ len l = ground arith in
      whole (ground arith)
        (ap (λ n. title_slice (slice_to l n)) k ∙ ap title_slice (slice_to-len l))
  | inr long ↦
      let k : min (len l) 120 ≡ 120 = ground arith in
      let at : title_slice (slice_to l (min (len l) 120)) ≡ title_slice (slice_to l 120) =
        ap (λ n. title_slice (slice_to l n)) k in
      elim (cut_at l 120 (ground arith)) [
        | behind front rest e width cut ↦ first_bytes front rest e width (at ∙ ap title_slice cut)
        | inside front c rest e before after cut ↦
            panics front c rest e before after (at ∙ ap title_slice cut)
      ]
]

-- The title of a plain text is its first line that is not blank, without the white space around
-- it, cut to 120 bytes; where the cut falls inside a character, the extraction panics. A text of
-- blank lines has no title.
pub plain_title_lem :
    (s : Chars)
    → (ls : List Chars) × Lines s ls
      × (((plain_title s ≡ ok none) × All IsBlank ls)
          ⊎ ((l : Chars) × FirstLine ls l × Titled l (plain_title s)))
unfolding plain_title title_of
plain_title_lem s = (
  lines s,
  lines-Lines s,
  elim (first_line-cases (lines s)) [
    | inl (missing, blanks) ↦ inl (ap title_of missing, blanks)
    | inr (l, found, first) ↦
        inr (l, first, subst (Titled l) (sym (ap title_of found)) (title_of-Titled l))
  ],
)
