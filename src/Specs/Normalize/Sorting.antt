-- ===== src/Specs/Normalize/Sorting.antt =====
-- The sort by name keeps the elements, and leaves a sorted list as it is.
use flow_pipe.Prelude.{
  ◌≡◌, refl, ap, sym, subst, ◌∙◌, ◌↔◌, ◌⊎◌, inl, inr, Bool, true, false, List, [], ◌∷◌, map, Elem,
  All, arith, if◌then◌else◌,
}
use flow_pipe.Text.{Text}
use flow_pipe.Text.Names.{NoRepeats}
use flow_pipe.Text.Order.{text_lt}
use flow_pipe.Specs.Normalize.{insert_by_name, sort_by_name}

text_lt-asymmetric : (s t : Text) → text_lt s t ≡ true → text_lt t s ≡ false
unfolding text_lt
text_lt-asymmetric [] [] e = ground arith
text_lt-asymmetric [] (y ∷ t) e = refl
text_lt-asymmetric (x ∷ s) [] e = ground arith
text_lt-asymmetric (x ∷ s) (y ∷ t) e = ground (arith, text_lt-asymmetric s t)

module _ {A : Type 0} (name_of : A → Text) where
  pub insert_by_name-All :
      (P : A → Type 0) (x : A) (xs : List A)
      → All P (insert_by_name name_of x xs) ↔ (P x × All P xs)
  unfolding insert_by_name
  insert_by_name-All P x [] = (λ h. (h.0, tt), λ h. (h.0, tt))
  insert_by_name-All P x (y ∷ ys) =
      branch (text_lt (name_of y) (name_of x)) (insert_by_name-All P x ys)
    where
      branch :
          (b : Bool)
          → All P (insert_by_name name_of x ys) ↔ (P x × All P ys)
          → All P (if b then y ∷ insert_by_name name_of x ys else x ∷ y ∷ ys)
            ↔ (P x × (P y × All P ys))
      branch true h = (λ a. let r = h.0 a.1 in (r.0, (a.0, r.1)), λ a. (a.1.0, h.1 (a.0, a.1.1)))
      branch false h = (λ a. a, λ a. a)

  pub sort_by_name-All : (P : A → Type 0) (xs : List A) → All P (sort_by_name name_of xs) ↔ All P xs
  unfolding sort_by_name
  sort_by_name-All P [] = (λ h. h, λ h. h)
  sort_by_name-All P (x ∷ xs) =
      let first = insert_by_name-All P x (sort_by_name name_of xs) in
      let rest = sort_by_name-All P xs in
      (λ h. let a = first.0 h in (a.0, rest.0 a.1), λ h. first.1 (h.0, rest.1 h.1))

  pub sort_by_name-empty : (xs : List A) → (sort_by_name name_of xs ≡ []) ↔ (xs ≡ [])
  unfolding sort_by_name
  sort_by_name-empty [] = (λ e. refl, λ e. refl)
  sort_by_name-empty (x ∷ xs) = (
    λ e.
        absurd
          ((sort_by_name-All (λ (y : A). ⊥) (x ∷ xs)).0 (subst (All (λ (y : A). ⊥)) (sym e) tt)).0,
    λ e. ground arith,
  )

  -- The names that occur.
  insert_by_name-Elem :
      (n : Text) (x : A) (xs : List A)
      → Elem n (map name_of (insert_by_name name_of x xs))
        ↔ ((n ≡ name_of x) ⊎ Elem n (map name_of xs))
  unfolding insert_by_name
  insert_by_name-Elem n x [] = (λ h. h, λ h. h)
  insert_by_name-Elem n x (y ∷ ys) =
      branch (text_lt (name_of y) (name_of x)) (insert_by_name-Elem n x ys)
    where
      branch :
          (b : Bool)
          → Elem n (map name_of (insert_by_name name_of x ys))
            ↔ ((n ≡ name_of x) ⊎ Elem n (map name_of ys))
          → Elem n (map name_of (if b then y ∷ insert_by_name name_of x ys else x ∷ y ∷ ys))
            ↔ ((n ≡ name_of x) ⊎ ((n ≡ name_of y) ⊎ Elem n (map name_of ys)))
      branch false h = (λ a. a, λ a. a)
      branch true h = (out, back)
        where
          out :
              (n ≡ name_of y) ⊎ Elem n (map name_of (insert_by_name name_of x ys))
              → (n ≡ name_of x) ⊎ ((n ≡ name_of y) ⊎ Elem n (map name_of ys))
          out (inl e) = inr (inl e)
          out (inr a) = elim (h.0 a) [ inl e ↦ inl e | inr r ↦ inr (inr r) ]

          back :
              (n ≡ name_of x) ⊎ ((n ≡ name_of y) ⊎ Elem n (map name_of ys))
              → (n ≡ name_of y) ⊎ Elem n (map name_of (insert_by_name name_of x ys))
          back (inl e) = inr (h.1 (inl e))
          back (inr (inl e)) = inl e
          back (inr (inr r)) = inr (h.1 (inr r))

  pub sort_by_name-Elem :
      (n : Text) (xs : List A)
      → Elem n (map name_of (sort_by_name name_of xs)) ↔ Elem n (map name_of xs)
  unfolding sort_by_name
  sort_by_name-Elem n [] = (λ h. h, λ h. h)
  sort_by_name-Elem n (x ∷ xs) =
      let first = insert_by_name-Elem n x (sort_by_name name_of xs) in
      let rest = sort_by_name-Elem n xs in
      (
        λ h. elim (first.0 h) [ inl e ↦ inl e | inr r ↦ inr (rest.0 r) ],
        λ h. first.1 (elim h [ inl e ↦ inl e | inr r ↦ inr (rest.1 r) ]),
      )

  insert_by_name-NoRepeats :
      (x : A) (xs : List A)
      → NoRepeats (map name_of (insert_by_name name_of x xs))
        ↔ ((¬ Elem (name_of x) (map name_of xs)) × NoRepeats (map name_of xs))
  unfolding insert_by_name
  insert_by_name-NoRepeats x [] = (λ h. h, λ h. h)
  insert_by_name-NoRepeats x (y ∷ ys) =
      branch (text_lt (name_of y) (name_of x)) (insert_by_name-NoRepeats x ys)
        (insert_by_name-Elem (name_of y) x ys)
    where
      branch :
          (b : Bool)
          → NoRepeats (map name_of (insert_by_name name_of x ys))
            ↔ ((¬ Elem (name_of x) (map name_of ys)) × NoRepeats (map name_of ys))
          → Elem (name_of y) (map name_of (insert_by_name name_of x ys))
            ↔ ((name_of y ≡ name_of x) ⊎ Elem (name_of y) (map name_of ys))
          → NoRepeats (map name_of (if b then y ∷ insert_by_name name_of x ys else x ∷ y ∷ ys)) ↔ (
              (¬ ((name_of x ≡ name_of y) ⊎ Elem (name_of x) (map name_of ys)))
              × ((¬ Elem (name_of y) (map name_of ys)) × NoRepeats (map name_of ys)))
      branch false h e = (λ a. a, λ a. a)
      branch true h e = (
        λ a.
            let r = h.0 a.1 in
            (
              λ u. elim u [ inl same ↦ a.0 (e.1 (inl (sym same))) | inr listed ↦ r.0 listed ],
              (λ u. a.0 (e.1 (inr u)), r.1),
            ),
        λ a. (
          λ u. elim (e.0 u) [ inl same ↦ a.0 (inl (sym same)) | inr listed ↦ a.1.0 listed ],
          h.1 (λ u. a.0 (inr u), a.1.1),
        ),
      )

  pub sort_by_name-NoRepeats :
      (xs : List A) → NoRepeats (map name_of (sort_by_name name_of xs)) ↔ NoRepeats (map name_of xs)
  unfolding sort_by_name
  sort_by_name-NoRepeats [] = (λ h. h, λ h. h)
  sort_by_name-NoRepeats (x ∷ xs) =
      let first = insert_by_name-NoRepeats x (sort_by_name name_of xs) in
      let names = sort_by_name-Elem (name_of x) xs in
      let rest = sort_by_name-NoRepeats xs in
      (
        λ h. let a = first.0 h in (λ u. a.0 (names.1 u), rest.0 a.1),
        λ h. first.1 (λ u. h.0 (names.0 u), rest.1 h.1),
      )

  -- No element stands before one with a smaller name.
  abbrev pub AreSorted : List A → Type 0
  AreSorted [] = Unit
  AreSorted (x ∷ []) = Unit
  AreSorted (x ∷ y ∷ ys) = (text_lt (name_of y) (name_of x) ≡ false) × AreSorted (y ∷ ys)

  insert_by_name-head :
      (x : A) (xs : List A) → AreSorted (x ∷ xs) → insert_by_name name_of x xs ≡ x ∷ xs
  unfolding insert_by_name
  insert_by_name-head x [] h = refl
  insert_by_name-head x (y ∷ ys) h = rw h.0

  pub sort_by_name-AreSorted_eq : (xs : List A) → AreSorted xs → sort_by_name name_of xs ≡ xs
  unfolding sort_by_name
  sort_by_name-AreSorted_eq [] h = refl
  sort_by_name-AreSorted_eq (x ∷ []) h = insert_by_name-head x [] tt
  sort_by_name-AreSorted_eq (x ∷ y ∷ ys) h =
      ap (insert_by_name name_of x) (sort_by_name-AreSorted_eq (y ∷ ys) h.1)
      ∙ insert_by_name-head x (y ∷ ys) h

  -- A sorted list behind an element that is not above it.
  below_sorted :
      (y x : A) (ys : List A)
      → text_lt (name_of y) (name_of x) ≡ true
      → AreSorted (y ∷ ys)
      → AreSorted (insert_by_name name_of x ys)
      → AreSorted (y ∷ insert_by_name name_of x ys)
  unfolding insert_by_name
  below_sorted y x [] lt h k = (text_lt-asymmetric (name_of y) (name_of x) lt, tt)
  below_sorted y x (z ∷ zs) lt h k = branch (text_lt (name_of z) (name_of x)) k
    where
      branch :
          (b : Bool)
          → AreSorted (if b then z ∷ insert_by_name name_of x zs else x ∷ z ∷ zs)
          → AreSorted (y ∷ (if b then z ∷ insert_by_name name_of x zs else x ∷ z ∷ zs))
      branch true k = (h.0, k)
      branch false k = (text_lt-asymmetric (name_of y) (name_of x) lt, k)

  tail-AreSorted : (y : A) (ys : List A) → AreSorted (y ∷ ys) → AreSorted ys
  tail-AreSorted y [] h = tt
  tail-AreSorted y (z ∷ zs) h = h.1

  insert_by_name-AreSorted :
      (x : A) (xs : List A) → AreSorted xs → AreSorted (insert_by_name name_of x xs)
  unfolding insert_by_name
  insert_by_name-AreSorted x [] h = tt
  insert_by_name-AreSorted x (y ∷ ys) h =
      branch (text_lt (name_of y) (name_of x)) refl
        (insert_by_name-AreSorted x ys (tail-AreSorted y ys h))
    where
      branch :
          (b : Bool)
          → text_lt (name_of y) (name_of x) ≡ b
          → AreSorted (insert_by_name name_of x ys)
          → AreSorted (if b then y ∷ insert_by_name name_of x ys else x ∷ y ∷ ys)
      branch true e k = below_sorted y x ys e h k
      branch false e k = (e, h)

  pub sort_by_name-AreSorted : (xs : List A) → AreSorted (sort_by_name name_of xs)
  unfolding sort_by_name
  sort_by_name-AreSorted [] = tt
  sort_by_name-AreSorted (x ∷ xs) =
      insert_by_name-AreSorted x (sort_by_name name_of xs) (sort_by_name-AreSorted xs)
