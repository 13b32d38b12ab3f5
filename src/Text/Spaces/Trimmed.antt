-- ===== src/Text/Spaces/Trimmed.antt =====
-- What strings.TrimSpace leaves has nothing to trim.
use mathlib.Core.List.{reverse, reverse_aux, reverse-reverse, reverse-append}
use flow_pipe.Prelude.{
  ℕ, zero, suc, ◌+◌, ◌≤◌, ◌<◌, ◌≡◌, refl, ap, sym, ◌∙◌, subst, Option, none, some, List, [], ◌∷◌,
  ◌++◌, append_assoc, map, length, arith, All, Bool, true, false, length-append,
}
use flow_pipe.Text.{Text, cut_prefix}
use flow_pipe.Text.Spaces.{spaces, cut_any, cut_all, trim_left, trim_right, trim_space}

length-reverse_aux : (s t : Text) → length (reverse_aux s t) ≡ length s + length t
length-reverse_aux [] t = omega arith
length-reverse_aux (c ∷ s) t = omega (arith, length-reverse_aux s (c ∷ t))

cut_prefix-eq : (p s t : Text) → cut_prefix p s ≡ some t → s ≡ p ++ t
unfolding cut_prefix
cut_prefix-eq [] s t e = cc
cut_prefix-eq (x ∷ p) [] t e = ground arith
cut_prefix-eq (x ∷ p) (y ∷ s) t e = ground (arith, cut_prefix-eq p s t)

cut_prefix-none : (p r post : Text) → cut_prefix p (r ++ post) ≡ none → cut_prefix p r ≡ none
unfolding cut_prefix
cut_prefix-none [] r post e = ground arith
cut_prefix-none (x ∷ p) [] post e = refl
cut_prefix-none (x ∷ p) (y ∷ r) post e = ground (arith, cut_prefix-none p r post)

-- None of the texts is empty.
abbrev NonEmpty : List Text → Type 0
NonEmpty = All (λ p. 0 < length p)

record CutAny (ps : List Text) (s t : Text) : Type 0 where
  piece : Text
  spells : s ≡ piece ++ t
  nonempty : 0 < length piece

cut_any-CutAny : (ps : List Text) (s t : Text) → NonEmpty ps → cut_any ps s ≡ some t → CutAny ps s t
unfolding cut_any
cut_any-CutAny [] s t h e = ground arith
cut_any-CutAny (p ∷ ps) s t h e = cases (cut_prefix p s) refl e (cut_any-CutAny ps s t h.1)
  where
    cases :
        (o : Option Text)
        → cut_prefix p s ≡ o
        → (elim o [ none ↦ cut_any ps s | some u ↦ some u ]) ≡ some t
        → (cut_any ps s ≡ some t → CutAny ps s t)
        → CutAny (p ∷ ps) s t
    cases none eo e rest =
        let c = rest e in record { piece = c.piece; spells = c.spells; nonempty = c.nonempty }
    cases (some u) eo e rest = record {
      piece = p;
      spells = cut_prefix-eq p s t (eo ∙ e);
      nonempty = h.0;
    }

cut_any-none :
    (ps : List Text) (r post : Text) → cut_any ps (r ++ post) ≡ none → cut_any ps r ≡ none
unfolding cut_any
cut_any-none [] r post e = refl
cut_any-none (p ∷ ps) r post e = cases (cut_prefix p (r ++ post)) refl e (cut_any-none ps r post)
  where
    cases :
        (o : Option Text)
        → cut_prefix p (r ++ post) ≡ o
        → (elim o [ none ↦ cut_any ps (r ++ post) | some u ↦ some u ]) ≡ none
        → (cut_any ps (r ++ post) ≡ none → cut_any ps r ≡ none)
        → (elim (cut_prefix p r) [ none ↦ cut_any ps r | some u ↦ some u ]) ≡ none
    cases none eo e rest = rw (cut_prefix-none p r post eo) (rest e)
    cases (some u) eo e rest = ground arith

cut_any-nil : (ps : List Text) → NonEmpty ps → cut_any ps [] ≡ none
unfolding cut_any cut_prefix
cut_any-nil [] h = refl
cut_any-nil ([] ∷ ps) h = ground (arith, h.0)
cut_any-nil ((x ∷ p) ∷ ps) h = cut_any-nil ps h.1

cut_all-stop :
    (ps : List Text) (fuel : ℕ) (s : Text) → cut_any ps s ≡ none → cut_all ps (suc fuel) s ≡ s
unfolding cut_all
cut_all-stop ps fuel s e = rw (cut_all, e)

cut_all-go :
    (ps : List Text) (fuel : ℕ) (s t : Text)
    → cut_any ps s ≡ some t
    → cut_all ps (suc fuel) s ≡ cut_all ps fuel t
unfolding cut_all
cut_all-go ps fuel s t e = rw (cut_all, e)

cut_all-idle : (ps : List Text) (fuel : ℕ) (s : Text) → cut_any ps s ≡ none → cut_all ps fuel s ≡ s
unfolding cut_all
cut_all-idle ps zero s e = refl
cut_all-idle ps (suc fuel) s e = cut_all-stop ps fuel s e

module _ (ps : List Text) (h : NonEmpty ps) where
  -- What was cut stood in front.
  record Leftover (fuel : ℕ) (s : Text) : Type 0 where
    front : Text
    spells : s ≡ front ++ cut_all ps fuel s
    clean : length s ≤ fuel → cut_any ps (cut_all ps fuel s) ≡ none

  cut_all-Leftover : (fuel : ℕ) (s : Text) → Leftover fuel s
  unfolding cut_all
  cut_all-Leftover zero [] = record { front = []; spells = refl; clean = λ b. cut_any-nil ps h }
  cut_all-Leftover zero (c ∷ s) = record { front = []; spells = refl; clean = λ b. ground arith }
  cut_all-Leftover (suc fuel) s = cases (cut_any ps s) refl (λ t. cut_all-Leftover fuel t)
    where
      cases :
          (o : Option Text)
          → cut_any ps s ≡ o
          → ((t : Text) → Leftover fuel t)
          → Leftover (suc fuel) s
      cases none e rest = record {
        front = [];
        spells = rw (cut_all-stop ps fuel s e);
        clean = λ b. rw (cut_all-stop ps fuel s e) e;
      }
      cases (some t) e rest =
          let c = cut_any-CutAny ps s t h e in
          let r = rest t in
          let shorter = ap length c.spells ∙ length-append c.piece t in
          record {
            front = c.piece ++ r.front;
            spells = rw (cut_all-go ps fuel s t e) (
                c.spells
                ∙ ap (λ u. c.piece ++ u) r.spells
                ∙ sym (append_assoc c.piece r.front (cut_all ps fuel t)));
            clean = λ b.
                rw (cut_all-go ps fuel s t e) (r.clean (omega (arith, shorter, c.nonempty, b)));
          }

length-reverse : (s : Text) → length (reverse s) ≡ length s
length-reverse s = omega (arith, length-reverse_aux s [])

all_nonempty : List Text → Bool
all_nonempty [] = true
all_nonempty ([] ∷ ps) = false
all_nonempty ((c ∷ p) ∷ ps) = all_nonempty ps

all_nonempty-NonEmpty : (ps : List Text) → all_nonempty ps ≡ true → NonEmpty ps
unfolding all_nonempty
all_nonempty-NonEmpty [] h = tt
all_nonempty-NonEmpty ([] ∷ ps) h = ground arith
all_nonempty-NonEmpty ((c ∷ p) ∷ ps) h = (omega arith, all_nonempty-NonEmpty ps h)

spaces-NonEmpty : NonEmpty spaces
unfolding all_nonempty
spaces-NonEmpty = all_nonempty-NonEmpty spaces refl

reversed-NonEmpty : NonEmpty (map reverse spaces)
unfolding all_nonempty
reversed-NonEmpty = all_nonempty-NonEmpty (map reverse spaces) refl

-- Nothing to trim on either side.
pub record IsTrimmed (s : Text) : Type 0 where
  pub front : cut_any spaces s ≡ none
  pub back : cut_any (map reverse spaces) (reverse s) ≡ none

pub trim_space-IsTrimmed : (s : Text) → IsTrimmed (trim_space s)
unfolding trim_space trim_left trim_right
trim_space-IsTrimmed s =
    let l = cut_all-Leftover spaces spaces-NonEmpty (length s) s in
    let u = trim_left s in
    let r = cut_all-Leftover (map reverse spaces) reversed-NonEmpty (length u) (reverse u) in
    let kept : u ≡ trim_right u ++ reverse r.front =
      sym (reverse-reverse u)
      ∙ ap reverse r.spells
      ∙ reverse-append r.front (cut_all (map reverse spaces) (length u) (reverse u)) in
    record {
      front =
          cut_any-none spaces (trim_right u) (reverse r.front)
            (subst (λ x. cut_any spaces x ≡ none) kept (l.clean (omega arith)));
      back =
          ap (cut_any (map reverse spaces))
            (reverse-reverse (cut_all (map reverse spaces) (length u) (reverse u)))
          ∙ r.clean (omega (arith, length-reverse u));
    }

pub trim_space-idle : (s : Text) → IsTrimmed s → trim_space s ≡ s
unfolding trim_space trim_left trim_right
trim_space-idle s t =
    ap trim_right (cut_all-idle spaces (length s) s t.front)
    ∙ ap reverse (cut_all-idle (map reverse spaces) (length s) (reverse s) t.back)
    ∙ reverse-reverse s

-- To trim twice is to trim once.
pub trim_space-trim_space : (s : Text) → trim_space (trim_space s) ≡ trim_space s
trim_space-trim_space s = trim_space-idle (trim_space s) (trim_space-IsTrimmed s)
