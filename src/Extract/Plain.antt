-- ===== src/Extract/Plain.antt =====
-- src/extract/markdown.rs: the title of a plain text, in `extract_plain`.
use link_r.Prelude.{Option, none, some, List, [], ◌∷◌, if◌then◌else◌, min}
use link_r.Error.{Result, ok, panic}
use link_r.Extract.Str.{Chars, is_empty, trim, lines, len, slice_to}

-- `.map(str::trim).find(|l| !l.is_empty())`
unfoldable pub first_line : List Chars → Option Chars
first_line [] = none
first_line (l ∷ ls) =
    let rest = first_line ls in
    let trimmed = trim l in if is_empty trimmed then rest else some trimmed

abbrev pub title_slice : Option Chars → Result (Option Chars)
title_slice none = panic
title_slice (some s) = ok (some s)

-- `.map(|l| &l[..l.len().min(120)])`
unfoldable pub title_of : Option Chars → Result (Option Chars)
title_of none = ok none
title_of (some l) = title_slice (slice_to l (min (len l) 120))

unfoldable pub plain_title : Chars → Result (Option Chars)
plain_title text = title_of (first_line (lines text))
