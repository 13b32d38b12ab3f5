-- ===== src/Text/FilePath/Laws.antt =====
-- Paths of plain segments: cleaning, joining and taking apart give back the segments.
use mathlib.Core.List.{reverse, reverse_aux, reverse-reverse}
use flow_pipe.Prelude.{
  ℕ, ◌≡◌, refl, subst, ap, sym, ◌∙◌, Bool, not, ◌||◌, true, false, List, [], ◌∷◌, ◌++◌,
  append_assoc, append-nil, arith, ◌==◌, if◌then◌else◌, All, All-append,
}
use flow_pipe.Text.{Text, codes, text_eq}
use flow_pipe.Text.FilePath.{
  slash, is_empty, split, clean_step, clean_segments, path_of, render, clean, join_buffer,
  path_join, dir_part, path_dir, last_segment, path_base,
}

abbrev pub NoSlash : Text → Type 0
NoSlash = All (λ c. (c == slash) ≡ false)

-- A segment that path.Clean leaves alone.
pub record IsPlain (s : Text) : Type 0 where
  pub no_slash : NoSlash s
  pub nonempty : is_empty s ≡ false
  pub not_dot : text_eq s (codes ".") ≡ false
  pub not_dots : text_eq s (codes "..") ≡ false

abbrev has_slash : Text → Bool
has_slash [] = false
has_slash (c ∷ s) = c == slash || has_slash s

-- The same as a test.
unfoldable pub is_plain : Text → Bool
unfolding text_eq
is_plain s = not (has_slash s || is_empty s || text_eq s (codes ".") || text_eq s (codes ".."))

NoSlash-of_test : (s : Text) → has_slash s ≡ false → NoSlash s
NoSlash-of_test [] h = tt
NoSlash-of_test (c ∷ s) h = (ground arith, NoSlash-of_test s (ground arith))

pub is_plain-IsPlain : (s : Text) → is_plain s ≡ true → IsPlain s
unfolding is_plain
is_plain-IsPlain s h = record {
  no_slash = NoSlash-of_test s (ground arith);
  nonempty = ground arith;
  not_dot = ground arith;
  not_dots = ground arith;
}

pub path_of-append : (ss ts : List Text) → path_of (ss ++ ts) ≡ path_of ss ++ path_of ts
path_of-append [] ts = refl
path_of-append (s ∷ ss) ts =
    ap (λ r. slash ∷ s ++ r) (path_of-append ss ts)
    ∙ sym (append_assoc (slash ∷ s) (path_of ss) (path_of ts))

split-path_of :
    (w : Text) (ss : List Text) → NoSlash w → All NoSlash ss → split (w ++ path_of ss) ≡ w ∷ ss
unfolding split
split-path_of [] [] h hs = refl
split-path_of [] (s ∷ ss) h hs = rw (split-path_of s ss hs.0 hs.1)
split-path_of (c ∷ w) ss h hs = rw (h.0, split-path_of w ss h.1 hs)

-- A rooted path determines its segments.
pub path_of-injective :
    (ss ts : List Text) → All NoSlash ss → All NoSlash ts → path_of ss ≡ path_of ts → ss ≡ ts
path_of-injective ss ts hs ht e =
    ap rest (sym (split-path_of [] ss tt hs) ∙ ap split e ∙ split-path_of [] ts tt ht)
  where
    rest : List Text → List Text
    rest [] = []
    rest (x ∷ xs) = xs

text_eq-nil : (s : Text) → is_empty s ≡ false → text_eq s [] ≡ false
unfolding text_eq
text_eq-nil [] h = ground arith
text_eq-nil (c ∷ s) h = refl

clean_step-IsPlain :
    (rooted : Bool) (stack : List Text) (s : Text)
    → IsPlain s
    → clean_step rooted stack s ≡ s ∷ stack
clean_step-IsPlain rooted stack s p = rw (text_eq-nil s p.nonempty, p.not_dot, p.not_dots)

clean_segments-IsPlain :
    (stack ss tail : List Text)
    → All IsPlain ss
    → clean_segments true stack (ss ++ tail) ≡ clean_segments true (reverse_aux ss stack) tail
unfolding clean_segments
clean_segments-IsPlain stack [] tail h = refl
clean_segments-IsPlain stack (s ∷ ss) tail h =
    ap (λ st. clean_segments true st (ss ++ tail)) (clean_step-IsPlain true stack s h.0)
    ∙ clean_segments-IsPlain (s ∷ stack) ss tail h.1

pub All-NoSlash : (ss : List Text) → All IsPlain ss → All NoSlash ss
All-NoSlash [] h = tt
All-NoSlash (s ∷ ss) h = (h.0.no_slash, All-NoSlash ss h.1)

-- Segments behind plain ones that cleaning drops leave no trace.
abbrev Drops : List Text → Type 0
Drops tail = (stack : List Text) → clean_segments true stack tail ≡ reverse stack

clean-Drops :
    (s : Text) (ss tail : List Text)
    → All IsPlain (s ∷ ss)
    → All NoSlash tail
    → Drops tail
    → clean (path_of ((s ∷ ss) ++ tail)) ≡ path_of (s ∷ ss)
unfolding clean clean_segments
clean-Drops s ss tail h ht d =
    ap (λ segs. render true (clean_segments true [] segs))
      (split-path_of [] ((s ∷ ss) ++ tail) tt
        (All-append NoSlash (s ∷ ss) tail (All-NoSlash (s ∷ ss) h) ht))
    ∙ ap (render true) (
        clean_segments-IsPlain [] (s ∷ ss) tail h ∙ d (reverse (s ∷ ss)) ∙ reverse-reverse (s ∷ ss))

-- A rooted path of plain segments is clean.
pub clean-path_of :
    (s : Text) (ss : List Text) → All IsPlain (s ∷ ss) → clean (path_of (s ∷ ss)) ≡ path_of (s ∷ ss)
clean-path_of s ss h =
    subst (λ l. clean (path_of l) ≡ path_of (s ∷ ss)) (append-nil (s ∷ ss))
      (clean-Drops s ss [] h tt (unfold clean_segments in λ stack. refl))

join_buffer-append :
    (c : ℕ) (buf : Text) (es : List Text) → join_buffer (c ∷ buf) es ≡ (c ∷ buf) ++ path_of es
unfolding join_buffer
join_buffer-append c buf [] = sym (append-nil (c ∷ buf))
join_buffer-append c buf (e ∷ es) =
    join_buffer-append c (buf ++ slash ∷ e) es ∙ append_assoc (c ∷ buf) (slash ∷ e) (path_of es)

-- path.Join of a clean rooted path and plain elements puts them behind it.
pub path_join-path_of :
    (s : Text) (ss es : List Text)
    → All IsPlain (s ∷ ss)
    → All IsPlain es
    → path_join (path_of (s ∷ ss) ∷ es) ≡ path_of ((s ∷ ss) ++ es)
unfolding path_join join_buffer
path_join-path_of s ss es h he =
    ap clean_nonempty
      (join_buffer-append slash (s ++ path_of ss) es ∙ sym (path_of-append (s ∷ ss) es))
    ∙ clean-path_of s (ss ++ es) (All-append IsPlain (s ∷ ss) es h he)
  where
    clean_nonempty : Text → Text
    clean_nonempty t = if is_empty t then [] else clean t

dir_part-NoSlash : (w : Text) → NoSlash w → dir_part w ≡ []
unfolding dir_part
dir_part-NoSlash [] h = refl
dir_part-NoSlash (c ∷ w) h = rw (dir_part-NoSlash w h.1, h.0)

is_empty-append : (s : Text) (c : ℕ) (t : Text) → is_empty (s ++ c ∷ t) ≡ false
is_empty-append [] c t = refl
is_empty-append (x ∷ s) c t = refl

dir_part-append : (s w : Text) → NoSlash w → dir_part (s ++ slash ∷ w) ≡ s ++ slash ∷ []
unfolding dir_part
dir_part-append [] w h = rw (dir_part-NoSlash w h)
dir_part-append (c ∷ s) w h = rw (dir_part-append s w h, is_empty-append s slash [])

-- path.Dir takes the last segment off.
pub path_dir-path_of :
    (s : Text) (ss : List Text) (w : Text)
    → All IsPlain (s ∷ ss)
    → NoSlash w
    → path_dir (path_of ((s ∷ ss) ++ w ∷ [])) ≡ path_of (s ∷ ss)
unfolding path_dir
path_dir-path_of s ss w h hw =
    ap clean (
      ap dir_part
        (path_of-append (s ∷ ss) (w ∷ []) ∙ ap (λ t. path_of (s ∷ ss) ++ slash ∷ t) (append-nil w))
      ∙ dir_part-append (path_of (s ∷ ss)) w hw
      ∙ sym (path_of-append (s ∷ ss) ([] ∷ [])))
    ∙ clean-Drops s ss ([] ∷ []) h (tt, tt) (unfold clean_segments text_eq in λ stack. refl)

last_segment-append :
    (found : Text) (ss : List Text) (w : Text)
    → is_empty w ≡ false
    → last_segment found (ss ++ w ∷ []) ≡ w
unfolding last_segment
last_segment-append found [] w h = rw h
last_segment-append found (s ∷ ss) w h = last_segment-append _ ss w h

base_of :
    (s : Text) {w : Text} → last_segment [] (split s) ≡ w → is_empty w ≡ false → path_base s ≡ w
unfolding path_base
base_of [] e h = ground arith
base_of (c ∷ s) e h = rw (e, h)

-- path.Base is the last segment.
pub path_base-path_of :
    (ss : List Text) (w : Text)
    → All IsPlain ss
    → IsPlain w
    → path_base (path_of (ss ++ w ∷ [])) ≡ w
unfolding path_base
path_base-path_of ss w h hw =
    base_of (path_of (ss ++ w ∷ []))
      (ap (last_segment []) (
          split-path_of [] (ss ++ w ∷ []) tt
            (All-append NoSlash ss (w ∷ []) (All-NoSlash ss h) (hw.no_slash, tt)))
        ∙ last_segment-append [] ([] ∷ ss) w hw.nonempty)
      hw.nonempty
