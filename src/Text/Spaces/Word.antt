-- ===== src/Text/Spaces/Word.antt =====
-- White space in front of a word and behind a blank.
use mathlib.Core.List.{reverse, reverse-append, reverse-reverse}
use flow_pipe.Prelude.{
  ℕ, ◌≡◌, ◌≢◌, refl, ap, sym, ◌∙◌, Option, none, some, List, [], ◌∷◌, ◌++◌, map, arith, All, ◌==◌,
  Bool, true, false, ◌||◌, if◌then◌else◌, inl, inr, ◌⊎◌,
}
use flow_pipe.Text.{Text, codes, cut_prefix}
use flow_pipe.Text.Spaces.{spaces, cut_any}
use flow_pipe.Text.Spaces.Trimmed.{IsTrimmed}

-- The text is the blank, or has no blank in it.
abbrev has_blank : Text → Bool
has_blank [] = false
has_blank (c ∷ p) = c == 32 || has_blank p

abbrev is_blank : Text → Bool
is_blank [] = false
is_blank (c ∷ []) = c == 32
is_blank (c ∷ d ∷ p) = false

abbrev Apart : Text → Type 0
Apart p = (is_blank p ≡ true) ⊎ (has_blank p ≡ false)

cut_prefix-unblank :
    (p r t : Text) → has_blank p ≡ false → cut_prefix p r ≡ none → cut_prefix p (r ++ 32 ∷ t) ≡ none
unfolding cut_prefix
cut_prefix-unblank [] r t h e = ground arith
cut_prefix-unblank (x ∷ p) [] t h e = ground arith
cut_prefix-unblank (x ∷ p) (y ∷ r) t h e = ground (arith, cut_prefix-unblank p r t)

cut_prefix-behind :
    (p : Text) (c : ℕ) (r t : Text)
    → Apart p
    → cut_prefix p (c ∷ r) ≡ none
    → cut_prefix p ((c ∷ r) ++ 32 ∷ t) ≡ none
unfolding cut_prefix
cut_prefix-behind p c r t (inr h) e = cut_prefix-unblank p (c ∷ r) t h e
cut_prefix-behind [] c r t (inl h) e = ground arith
cut_prefix-behind (x ∷ []) c r t (inl h) e = ground arith
cut_prefix-behind (x ∷ y ∷ p) c r t (inl h) e = ground arith

-- Where nothing can be cut, nothing can behind more that begins with a blank.
cut_any-behind :
    (ps : List Text) (c : ℕ) (r t : Text)
    → All Apart ps
    → cut_any ps (c ∷ r) ≡ none
    → cut_any ps ((c ∷ r) ++ 32 ∷ t) ≡ none
unfolding cut_any
cut_any-behind [] c r t h e = refl
cut_any-behind (p ∷ ps) c r t h e =
    cases (cut_prefix p (c ∷ r)) refl e (cut_any-behind ps c r t h.1)
  where
    cases :
        (o : Option Text)
        → cut_prefix p (c ∷ r) ≡ o
        → (elim o [ none ↦ cut_any ps (c ∷ r) | some u ↦ some u ]) ≡ none
        → (cut_any ps (c ∷ r) ≡ none → cut_any ps ((c ∷ r) ++ 32 ∷ t) ≡ none)
        → (elim (cut_prefix p ((c ∷ r) ++ 32 ∷ t)) [
          | none ↦ cut_any ps ((c ∷ r) ++ 32 ∷ t)
          | some u ↦ some u
        ])
          ≡ none
    cases none eo e rest = rw (cut_prefix-behind p c r t h.0 eo) (rest e)
    cases (some u) eo e rest = ground arith

all_apart : List Text → Bool
all_apart [] = true
all_apart (p ∷ ps) =
    if is_blank p then all_apart ps else if has_blank p then false else all_apart ps

all_apart-Apart : (ps : List Text) → all_apart ps ≡ true → All Apart ps
unfolding all_apart
all_apart-Apart [] h = tt
all_apart-Apart (p ∷ ps) h = cases (is_blank p) (has_blank p) refl refl h (all_apart-Apart ps)
  where
    cases :
        (a b : Bool)
        → is_blank p ≡ a
        → has_blank p ≡ b
        → (if a then all_apart ps else if b then false else all_apart ps) ≡ true
        → (all_apart ps ≡ true → All Apart ps)
        → All Apart (p ∷ ps)
    cases true b ea eb e rest = (inl ea, rest e)
    cases false true ea eb e rest = ground arith
    cases false false ea eb e rest = (inr eb, rest e)

reversed-Apart : All Apart (map reverse spaces)
unfolding all_apart
reversed-Apart = all_apart-Apart (map reverse spaces) refl

-- A text that is trimmed and not empty is so with "Bearer " in front too.
pub bearer-IsTrimmed : (s : Text) → s ≢ [] → IsTrimmed s → IsTrimmed (codes "Bearer " ++ s)
unfolding cut_any cut_prefix
bearer-IsTrimmed s h t = record {
  front = refl;
  back =
      ap (cut_any (map reverse spaces)) (reverse-append (codes "Bearer ") s)
      ∙ behind (reverse s) refl t.back;
}
  where
    behind :
        (r : Text)
        → reverse s ≡ r
        → cut_any (map reverse spaces) r ≡ none
        → cut_any (map reverse spaces) (r ++ reverse (codes "Bearer ")) ≡ none
    behind [] e c = absurd (h (sym (reverse-reverse s) ∙ ap reverse e))
    behind (x ∷ r) e c = cut_any-behind (map reverse spaces) x r _ reversed-Apart c
