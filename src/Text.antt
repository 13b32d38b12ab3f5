-- ===== src/Text.antt =====
-- Go strings as byte sequences: equality, order, prefixes and suffixes (strings.HasPrefix,
-- strings.HasSuffix, strings.TrimPrefix, strings.TrimSuffix, sort.Strings' order).
pub mod Decimal
pub mod FilePath
pub mod Integer
pub mod Names
pub mod Order
pub mod Spaces
use Prim.Native.Char.{code}
use mathlib.Core.Option
use Prim.Native.String.{String}
use flow_pipe.Prelude.{
  ℕ, ◌≡◌, refl, subst, ◌≢◌, sym, ◌∙◌, inl, inr, Bool-cases, ◌↔◌, Bool, true, false, ◌&&◌, ◌||◌,
  List, [], ◌∷◌, ◌++◌, arith, ltb, ◌==◌, if◌then◌else◌, Option, none, some,
}

abbrev pub Text : Type 0
Text = List ℕ

-- The bytes of an ASCII literal.
abbrev pub codes : String → Text
codes String.[] = []
codes (String.◌∷◌ c s) = code c ∷ codes s

unfoldable pub text_eq : Text → Text → Bool
text_eq [] [] = true
text_eq [] (y ∷ ys) = false
text_eq (x ∷ xs) [] = false
text_eq (x ∷ xs) (y ∷ ys) = x == y && text_eq xs ys

pub text_eq→eq : (s t : Text) → text_eq s t ≡ true → s ≡ t
unfolding text_eq
text_eq→eq [] [] h = refl
text_eq→eq [] (y ∷ ys) h = ground arith
text_eq→eq (x ∷ xs) [] h = ground arith
text_eq→eq (x ∷ xs) (y ∷ ys) h = ground (arith, text_eq→eq xs ys)

pub text_eq_refl : (s : Text) → text_eq s s ≡ true
unfolding text_eq
text_eq_refl [] = refl
text_eq_refl (x ∷ xs) = ground (arith, text_eq_refl xs)

pub text_eq_iff : (s t : Text) → (text_eq s t ≡ true) ↔ (s ≡ t)
text_eq_iff s t = (text_eq→eq s t, λ e. subst (λ u. text_eq s u ≡ true) e (text_eq_refl s))

pub text_eq-false : (s t : Text) → s ≢ t → text_eq s t ≡ false
text_eq-false s t h = elim (Bool-cases (text_eq s t)) [
  | inl same ↦ absurd (h (text_eq→eq s t same))
  | inr differ ↦ differ
]

-- Two comparisons agree if the equations do.
pub text_eq_cong : (s t u v : Text) → (s ≡ t) ↔ (u ≡ v) → text_eq s t ≡ text_eq u v
text_eq_cong s t u v h = elim (Bool-cases (text_eq u v)) [
  | inl same ↦ (text_eq_iff s t).1 (h.1 (text_eq→eq u v same)) ∙ sym same
  | inr differ ↦ text_eq-false s t (λ e. cc (differ, (text_eq_iff u v).1 (h.0 e))) ∙ sym differ
]

-- strings.HasPrefix(s, p), with the prefix first.
unfoldable pub has_prefix : Text → Text → Bool
has_prefix [] s = true
has_prefix (x ∷ p) [] = false
has_prefix (x ∷ p) (y ∷ s) = x == y && has_prefix p s

-- What is left of `s` behind the prefix `p`.
unfoldable pub cut_prefix : Text → Text → Option Text
cut_prefix [] s = some s
cut_prefix (x ∷ p) [] = none
cut_prefix (x ∷ p) (y ∷ s) = if x == y then cut_prefix p s else none

pub has_prefix-append : (p s : Text) → has_prefix p (p ++ s) ≡ true
unfolding has_prefix
has_prefix-append [] s = refl
has_prefix-append (x ∷ p) s = ground (arith, has_prefix-append p s)

-- strings.HasSuffix(s, p), with the suffix first: some tail of `s` is `p`.
unfoldable pub has_suffix : Text → Text → Bool
has_suffix p [] = text_eq p []
has_suffix p (x ∷ s) = text_eq p (x ∷ s) || has_suffix p s

abbrev or_self : Text → Option Text → Text
or_self s none = s
or_self s (some t) = t

-- strings.TrimPrefix(s, p), with the prefix first.
unfoldable pub trim_prefix : Text → Text → Text
unfolding cut_prefix
trim_prefix p s = or_self s (cut_prefix p s)

-- What is left of `s` in front of the suffix `p`, where `s` ends in it.
unfoldable pub cut_suffix : Text → Text → Option Text
unfolding text_eq
cut_suffix p [] = if text_eq p [] then some [] else none
cut_suffix p (x ∷ s) =
    let rest = Option.map (λ t. x ∷ t) (cut_suffix p s) in
    if text_eq p (x ∷ s) then some [] else rest

-- strings.TrimSuffix(s, p), with the suffix first.
unfoldable pub trim_suffix : Text → Text → Text
unfolding cut_suffix
trim_suffix p s = or_self s (cut_suffix p s)
