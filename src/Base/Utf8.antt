-- ===== src/Base/Utf8.antt =====
-- The test of the standard library for text in UTF-8.
use app_guestaspace.Base.{ℕ, Bool, true, ◌&&◌, ◌||◌, List, [], ◌∷◌, ltb, leb, ◌==◌}

-- Continuation bytes, and the well-formed sequences of two, three and four bytes.
abbrev is_within : ℕ → ℕ → ℕ → Bool
is_within lo hi b = leb lo b && leb b hi

abbrev is_two : ℕ → ℕ → Bool
is_two a b = is_within 0xC2 0xDF a && is_within 0x80 0xBF b

abbrev is_three : ℕ → ℕ → ℕ → Bool
is_three a b c =
    ((a == 0xE0 && is_within 0xA0 0xBF b)
      || ((is_within 0xE1 0xEC a || is_within 0xEE 0xEF a) && is_within 0x80 0xBF b)
      || (a == 0xED && is_within 0x80 0x9F b))
    && is_within 0x80 0xBF c

abbrev is_four : ℕ → ℕ → ℕ → ℕ → Bool
is_four a b c d =
    ((a == 0xF0 && is_within 0x90 0xBF b)
      || (is_within 0xF1 0xF3 a && is_within 0x80 0xBF b)
      || (a == 0xF4 && is_within 0x80 0x8F b))
    && is_within 0x80 0xBF c
    && is_within 0x80 0xBF d

-- The test of `core::str::from_utf8`, which gives the same bytes back as a text.
unfoldable pub is_utf8 : List ℕ → Bool
is_utf8 [] = true
is_utf8 (a ∷ []) = ltb a 0x80
is_utf8 (a ∷ b ∷ []) = (ltb a 0x80 && is_utf8 (b ∷ [])) || is_two a b
is_utf8 (a ∷ b ∷ c ∷ []) =
    (ltb a 0x80 && is_utf8 (b ∷ c ∷ [])) || (is_two a b && is_utf8 (c ∷ [])) || is_three a b c
is_utf8 (a ∷ b ∷ c ∷ d ∷ rest) =
    (ltb a 0x80 && is_utf8 (b ∷ c ∷ d ∷ rest))
    || (is_two a b && is_utf8 (c ∷ d ∷ rest))
    || (is_three a b c && is_utf8 (d ∷ rest))
    || (is_four a b c d && is_utf8 rest)
