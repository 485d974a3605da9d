-- ===== src/Extract/Lines.antt =====
-- What the lines of a text, a trimmed text and the first line that is not blank are, apart from the
-- functions that compute them (`str::lines` and `str::trim`, as src/extract/markdown.rs uses them).
use mathlib.Core.List.{append_assoc}
use link_r.Prelude.{
  ℕ, ◌≡◌, ◌≢◌, ◌⊎◌, inl, inr, refl, sym, ap, subst, ◌∙◌, true, false, ◌&&◌, none, some, List, [],
  ◌∷◌, ◌++◌, All, ◌==◌, nat_eq, nat_beq_iff, arith, Bool-cases,
}
use link_r.Extract.Str.{
  Chars, is_empty, is_whitespace, trim, trim_start, trim_end, lines, extend, starts_line_end,
}
use link_r.Extract.Plain.{first_line}

-- A line holds no line feed.
abbrev NoFeed : Chars → Type 0
NoFeed l = All (λ c. c ≢ 10) l

-- The last character is not a carriage return.
abbrev NoReturn : Chars → Type 0
NoReturn [] = Unit
NoReturn (c ∷ []) = c ≢ 13
NoReturn (c ∷ d ∷ l) = NoReturn (d ∷ l)

-- A text and its lines: each ends at a line feed, or at a carriage return and a line feed, and the
-- last one that is not empty may end with the text.
pub data Lines : Chars → List Chars → Type 0 where
  done : Lines [] []
  last : (c : ℕ) (l : Chars) → NoFeed (c ∷ l) → Lines (c ∷ l) ((c ∷ l) ∷ [])
  feed :
      (l rest : Chars) (ls : List Chars)
      → NoFeed l
      → NoReturn l
      → Lines rest ls
      → Lines (l ++ 10 ∷ rest) (l ∷ ls)
  return_feed :
      (l rest : Chars) (ls : List Chars)
      → NoFeed l
      → Lines rest ls
      → Lines (l ++ 13 ∷ 10 ∷ rest) (l ∷ ls)

-- One character more in front of the first line.
extend-Lines :
    (c : ℕ) {s : Chars} {ls : List Chars}
    → c ≢ 10
    → (c == 13 && starts_line_end s) ≡ false
    → Lines s ls
    → Lines (c ∷ s) (extend c ls)
extend-Lines c ne h done = last c [] (ne, tt)
extend-Lines c ne h (last d l p) = last c (d ∷ l) (ne, p)
extend-Lines c ne h (feed [] rest ls p q r) =
    let apart : c ≢ 13 = λ e. ground (arith, nat_beq_iff c 13) in
    feed (c ∷ []) rest ls (ne, tt) apart r
extend-Lines c ne h (feed (d ∷ l) rest ls p q r) = feed (c ∷ d ∷ l) rest ls (ne, p) q r
extend-Lines c ne h (return_feed l rest ls p r) = return_feed (c ∷ l) rest ls (ne, p) r

return-Lines :
    (c : ℕ) {s : Chars} {ls : List Chars}
    → (c == 13 && starts_line_end s) ≡ true
    → Lines s ls
    → Lines (c ∷ s) ls
return-Lines c h done = absurd (ground arith)
return-Lines c h (last d l (ne, p)) = absurd (ne (ground (arith, nat_beq_iff d 10)))
return-Lines c h (feed [] rest ls p q r) =
    let e : 13 ≡ c = ground (arith, nat_beq_iff c 13) in
    subst (λ x. Lines (x ∷ 10 ∷ rest) ([] ∷ ls)) e (return_feed [] rest ls tt r)
return-Lines c h (feed (d ∷ l) rest ls (ne, p) q r) = absurd (ne (ground (arith, nat_beq_iff d 10)))
return-Lines c h (return_feed [] rest ls p r) = absurd (ground arith)
return-Lines c h (return_feed (d ∷ l) rest ls (ne, p) r) =
    absurd (ne (ground (arith, nat_beq_iff d 10)))

pub lines-Lines : (s : Chars) → Lines s (lines s)
unfolding lines
lines-Lines [] = done
lines-Lines (c ∷ s) = elim (Bool-cases (c == 10)) [
  | inl at_feed ↦
      let e : 10 ≡ c = ground (arith, nat_beq_iff c 10) in
      rw (at_feed, lines)
        (subst (λ x. Lines (x ∷ s) ([] ∷ lines s)) e (feed [] s (lines s) tt tt (lines-Lines s)))
  | inr c_other ↦ elim (Bool-cases (c == 13 && starts_line_end s)) [
    | inl at_return ↦ rw (c_other, lines, at_return) (return-Lines c at_return (lines-Lines s))
    | inr inner ↦
        rw (c_other, lines, inner)
          (extend-Lines c (λ e. ground (arith, nat_beq_iff c 10)) inner (lines-Lines s))
  ]
]

-- Nothing but white space.
abbrev pub IsBlank : Chars → Type 0
IsBlank l = All (λ c. is_whitespace c ≡ true) l

-- A text without the white space around it: what is left starts and ends with another character.
pub record Trimmed (l t : Chars) : Type 0 where
  pub before : Chars
  pub behind : Chars
  pub first : ℕ
  pub from_first : Chars
  pub to_last : Chars
  pub final : ℕ
  pub whole : l ≡ before ++ (t ++ behind)
  pub blank_before : IsBlank before
  pub blank_behind : IsBlank behind
  pub starts : t ≡ first ∷ from_first
  pub ends : t ≡ to_last ++ final ∷ []
  pub first_other : is_whitespace first ≡ false
  pub final_other : is_whitespace final ≡ false

is_empty-snoc : (l : Chars) (c : ℕ) → is_empty (l ++ c ∷ []) ≡ false
is_empty-snoc [] c = refl
is_empty-snoc (d ∷ l) c = refl

-- What is left when the white space behind is gone.
trim_end-cases :
    (l : Chars)
    → ((trim_end l ≡ []) × IsBlank l)
      ⊎ ((to_last : Chars) × (final : ℕ) × (behind : Chars) × (trim_end l ≡ to_last ++ final ∷ [])
          × (l ≡ (to_last ++ final ∷ []) ++ behind)
          × (is_whitespace final ≡ false)
          × IsBlank behind)
unfolding trim_end
trim_end-cases [] = inl (refl, tt)
trim_end-cases (c ∷ l) = elim (trim_end-cases l) [
  | inl (gone, blank) ↦ elim (Bool-cases (is_whitespace c)) [
    | inl white ↦ inl (rw (gone, white) refl, (white, blank))
    | inr black ↦ inr ([], c, l, rw (gone, black) refl, refl, black, blank)
  ]
  | inr (to_last, final, behind, kept, whole, black, blank) ↦ inr (
    c ∷ to_last,
    final,
    behind,
    rw (kept, is_empty-snoc to_last final) refl,
    ap (λ x. c ∷ x) whole,
    black,
    blank,
  )
]

-- What is left when the white space in front of a text that ends in another character is gone.
trim_start-cases :
    (q : Chars) (z : ℕ)
    → is_whitespace z ≡ false
    → (before : Chars) × (first : ℕ) × (from_first : Chars) × (to_last : Chars) × (trim_start
          (q ++ z ∷ [])
        ≡ first ∷ from_first)
      × (first ∷ from_first ≡ to_last ++ z ∷ [])
      × (q ++ z ∷ [] ≡ before ++ first ∷ from_first)
      × (is_whitespace first ≡ false)
      × IsBlank before
unfolding trim_start
trim_start-cases [] z black = ([], z, [], [], rw black refl, refl, refl, black, tt)
trim_start-cases (c ∷ q) z black = elim (Bool-cases (is_whitespace c)) [
  | inl white ↦
      let (before, first, from_first, to_last, run, ends, whole, other, blank) =
        trim_start-cases q z black in
      (
        c ∷ before,
        first,
        from_first,
        to_last,
        rw white run,
        ends,
        ap (λ x. c ∷ x) whole,
        other,
        (white, blank),
      )
  | inr dark ↦ ([], c, q ++ z ∷ [], c ∷ q, rw dark refl, refl, refl, dark, tt)
]

-- Trimming leaves nothing of a blank text, and otherwise what `Trimmed` says.
pub trim-cases :
    (l : Chars) → ((trim l ≡ []) × IsBlank l) ⊎ ((is_empty (trim l) ≡ false) × Trimmed l (trim l))
unfolding trim trim_start
trim-cases l = elim (trim_end-cases l) [
  | inl (gone, blank) ↦ inl (ap trim_start gone, blank)
  | inr (q, z, behind, kept, whole, black, blank) ↦
      let (before, first, from_first, to_last, run, ends, cut, other, white) =
        trim_start-cases q z black in
      let trimmed : trim l ≡ first ∷ from_first = ap trim_start kept ∙ run in
      inr (
        ap is_empty trimmed,
        record {
          before = before;
          behind = behind;
          first = first;
          from_first = from_first;
          to_last = to_last;
          final = z;
          whole =
              whole
              ∙ (ap (λ x. x ++ behind) (cut ∙ ap (λ x. before ++ x) (sym trimmed))
                  ∙ append_assoc before (trim l) behind);
          blank_before = white;
          blank_behind = blank;
          starts = trimmed;
          ends = trimmed ∙ ends;
          first_other = other;
          final_other = black;
        },
      )
]

-- The first line that is not blank, trimmed.
pub data FirstLine : List Chars → Chars → Type 0 where
  here : (l t : Chars) (ls : List Chars) → Trimmed l t → FirstLine (l ∷ ls) t
  later :
      {ls : List Chars} {t : Chars} (l : Chars) → IsBlank l → FirstLine ls t → FirstLine (l ∷ ls) t

pub first_line-cases :
    (ls : List Chars)
    → ((first_line ls ≡ none) × All IsBlank ls)
      ⊎ ((t : Chars) × (first_line ls ≡ some t) × FirstLine ls t)
unfolding first_line
first_line-cases [] = inl (refl, tt)
first_line-cases (l ∷ ls) = elim (trim-cases l) [
  | inl (gone, blank) ↦ elim (first_line-cases ls) [
    | inl (missing, blanks) ↦ inl (rw gone missing, (blank, blanks))
    | inr (t, found, first) ↦ inr (t, rw gone found, later l blank first)
  ]
  | inr (kept, trimmed) ↦ inr (trim l, rw kept refl, here l (trim l) ls trimmed)
]
