-- ===== src/Text/Spaces.antt =====
-- strings.TrimSpace on byte strings: white space is what unicode.IsSpace says of a character in UTF-8.
pub mod Trimmed
pub mod Word
use mathlib.Core.List.{reverse}
use flow_pipe.Prelude.{ℕ, zero, suc, Option, none, some, List, [], ◌∷◌, map, length}
use flow_pipe.Text.{Text, codes, cut_prefix}

-- U+2000 to U+200A, U+2028 and U+2029, U+202F.
abbrev general_spaces : List ℕ
general_spaces =
    128 ∷ 129 ∷ 130 ∷ 131 ∷ 132 ∷ 133 ∷ 134 ∷ 135 ∷ 136 ∷ 137 ∷ 138 ∷ 168 ∷ 169 ∷ 175 ∷ []

-- The encodings: tab to carriage return, blank, U+0085, U+00A0, U+1680, those above, U+205F and U+3000.
abbrev pub spaces : List Text
spaces =
    (9 ∷ [])
    ∷ (10 ∷ [])
    ∷ (11 ∷ [])
    ∷ (12 ∷ [])
    ∷ (13 ∷ [])
    ∷ (32 ∷ [])
    ∷ (194 ∷ 133 ∷ [])
    ∷ (194 ∷ 160 ∷ [])
    ∷ (225 ∷ 154 ∷ 128 ∷ [])
    ∷ (226 ∷ 129 ∷ 159 ∷ [])
    ∷ (227 ∷ 128 ∷ 128 ∷ [])
    ∷ map (λ c. 226 ∷ 128 ∷ c ∷ []) general_spaces

-- What is left behind the first of the given texts that `s` begins with.
unfoldable pub cut_any : List Text → Text → Option Text
unfolding cut_prefix
cut_any [] s = none
cut_any (p ∷ ps) s = elim (cut_prefix p s) [ none ↦ cut_any ps s | some t ↦ some t ]

-- Cuts as long as there is something to cut; each round takes a byte at least.
unfoldable pub cut_all : List Text → ℕ → Text → Text
unfolding cut_any
cut_all ps zero s = s
cut_all ps (suc fuel) s = elim (cut_any ps s) [ none ↦ s | some t ↦ cut_all ps fuel t ]

unfoldable pub trim_left : Text → Text
unfolding cut_all
trim_left s = cut_all spaces (length s) s

-- From the end: the same on the reversed text.
unfoldable pub trim_right : Text → Text
unfolding cut_all
trim_right s = reverse (cut_all (map reverse spaces) (length s) (reverse s))

-- strings.TrimSpace
unfoldable pub trim_space : Text → Text
unfolding trim_left trim_right
trim_space s = trim_right (trim_left s)
