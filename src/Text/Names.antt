-- ===== src/Text/Names.antt =====
-- A set of names that is filled one by one, as a Go map whose values say nothing.
use flow_pipe.Prelude.{◌≡◌, ◌↔◌, Bool, true, false, ◌||◌, List, [], ◌∷◌, arith, Elem, All}
use flow_pipe.Text.{Text, text_eq, text_eq_iff}

abbrev pub contains : List Text → Text → Bool
contains [] name = false
contains (x ∷ seen) name = text_eq x name || contains seen name

pub contains_iff : (seen : List Text) (name : Text) → (contains seen name ≡ true) ↔ Elem name seen
contains_iff [] name = (λ e. ground arith, λ h. elim h [ ])
contains_iff (x ∷ seen) name = (
  λ e. ground (arith, text_eq_iff x name, contains_iff seen name),
  λ h. ground (arith, text_eq_iff x name, contains_iff seen name),
)

-- No name twice.
abbrev pub NoRepeats : List Text → Type 0
NoRepeats [] = Unit
NoRepeats (x ∷ xs) = ¬ Elem x xs × NoRepeats xs

-- No name of the list is seen already.
abbrev pub Unseen : List Text → List Text → Type 0
Unseen seen names = All (λ n. ¬ Elem n seen) names
