-- ===== src/Formula/Evaluate/Texts.antt =====
-- packages/formula/src/evaluate.ts: texts by code points, and the two patterns that it tests.
use salesmaker.Base.{
  ℕ, zero, suc, ◌-◌, Bool, true, false, ◌&&◌, ◌||◌, ◌==◌, List, [], ◌∷◌, ◌++◌, length, leb,
  if◌then◌else◌, all, take, drop,
}
use salesmaker.Base.Text.{Text, begins_with}

abbrev within : ℕ → ℕ → ℕ → Bool
within low high c = leb low c && leb c high

abbrev starts_low : Text → Bool
starts_low [] = false
starts_low (c ∷ cs) = within 56320 57343 c

abbrev glue : ℕ → List Text → List Text
glue c [] = (c ∷ []) ∷ []
glue c (t ∷ ts) = (c ∷ t) ∷ ts

-- `Array.from(text)`: a surrogate pair is one element.
unfoldable pub code_points : Text → List Text
code_points [] = []
code_points (c ∷ cs) =
    if within 55296 56319 c && starts_low cs
    then glue c (code_points cs)
    else (c ∷ []) ∷ code_points cs

-- `parts.join('')`
unfoldable pub concat_texts : List Text → Text
concat_texts [] = []
concat_texts (t ∷ ts) = t ++ concat_texts ts

-- `slice(-n)`, all of it for nought.
abbrev pub last_of : ℕ → List Text → List Text
last_of zero ts = ts
last_of (suc n) ts = drop (length ts - suc n) ts

-- `slice(from, to)`
abbrev pub slice_of : ℕ → ℕ → List Text → List Text
slice_of from to ts = take (to - from) (drop from ts)

-- `text.split(find).join(by)` for a text `find` that is not empty; the first argument counts the
-- units of an occurrence that are still to be skipped.
unfoldable pub substituted : ℕ → Text → Text → Text → Text
substituted k find by [] = []
substituted (suc k) find by (c ∷ cs) = substituted k find by cs
substituted zero find by (c ∷ cs) =
    let found = by ++ substituted (length find - 1) find by cs in
    let other = c ∷ substituted zero find by cs in
    if begins_with (c ∷ cs) find then found else other

-- `replace('T', ' ')`: the first only.
unfoldable pub spaced : Text → Text
spaced [] = []
spaced (c ∷ cs) = let rest = spaced cs in if c == b'T' then b' ' ∷ cs else c ∷ rest

abbrev pub is_digit : ℕ → Bool
is_digit = within b'0' b'9'

-- `\d*$`
abbrev digits_only : Text → Bool
digits_only = all is_digit

-- `\d*\.?\d*$`, with or without the point.
abbrev digits_point : Text → Bool
digits_point [] = true
digits_point (c ∷ cs) = (is_digit c && digits_point cs) || (c == b'.' && digits_only cs)

abbrev unsigned : Text → Bool
unsigned [] = false
unsigned (c ∷ []) = is_digit c
unsigned (c ∷ d ∷ cs) = (is_digit c && digits_point (d ∷ cs)) || (c == b'.' && digits_only (d ∷ cs))

abbrev without_sign : Text → Text
without_sign [] = []
without_sign (c ∷ cs) = if c == b'+' || c == b'-' then cs else c ∷ cs

-- `/^[+-]?(\d+\.?\d*|\.\d+)$/`
unfoldable pub is_number_text : Text → Bool
is_number_text t = unsigned (without_sign t)

-- `/^(\d{4})-(\d{2})-(\d{2})/`
unfoldable pub is_date_text : Text → Bool
is_date_text (a ∷ b ∷ c ∷ d ∷ e ∷ f ∷ g ∷ h ∷ i ∷ j ∷ rest) =
    is_digit a
    && is_digit b
    && is_digit c
    && is_digit d
    && (e == b'-')
    && is_digit f
    && is_digit g
    && (h == b'-')
    && is_digit i
    && is_digit j
is_date_text _ = false
