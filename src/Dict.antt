-- ===== src/Dict.antt =====
-- Go maps from strings to strings, as association lists: the order of the entries stands for nothing.
use flow_pipe.Prelude.{◌≡◌, refl, Option, none, some, List, [], ◌∷◌, arith, if◌then◌else◌}
use flow_pipe.Text.{Text, text_eq, text_eq_iff}

abbrev pub Dict : Type 0
Dict = List (Text × Text)

unfoldable pub lookup : Text → Dict → Option Text
lookup k [] = none
lookup k ((j, v) ∷ m) = if text_eq j k then some v else lookup k m

-- m[k] = v
unfoldable pub insert : Text → Text → Dict → Dict
insert k v [] = (k, v) ∷ []
insert k v ((j, w) ∷ m) = if text_eq j k then (k, v) ∷ m else (j, w) ∷ insert k v m

pub lookup-insert :
    (k j v : Text) (m : Dict)
    → lookup j (insert k v m) ≡ (if text_eq k j then some v else lookup j m)
unfolding lookup insert
lookup-insert k j v [] = refl
lookup-insert k j v ((i, w) ∷ m) =
    ground (arith, text_eq_iff k j, text_eq_iff i k, text_eq_iff i j, lookup-insert k j v m)

-- Every entry of the second map but those under one key is put into the first.
unfoldable pub insert_all_but : Text → Dict → Dict → Dict
insert_all_but key [] m = m
insert_all_but key ((k, v) ∷ new) m =
    insert_all_but key new (if text_eq k key then m else insert k v m)

-- The value under the key that is passed over stays.
pub lookup-insert_all_but :
    (key : Text) (new m : Dict) → lookup key (insert_all_but key new m) ≡ lookup key m
unfolding insert_all_but
lookup-insert_all_but key [] m = refl
lookup-insert_all_but key ((k, v) ∷ new) m = ground (
  arith,
  lookup-insert_all_but key new (if text_eq k key then m else insert k v m),
  lookup-insert k key v m,
)
