-- ===== src/Specs/Diff.antt =====
-- Diff of pkg/flow/diff/diff.go. A line of its result stands for its text.
use flow_pipe.Prelude.{
  ℕ, suc, ◌≡◌, refl, ap, ◌∙◌, List, [], ◌∷◌, ◌++◌, map, length, arith, ◌==◌, if◌then◌else◌,
}
use flow_pipe.Text.{Text, text_eq}
use flow_pipe.Proto.{FlowSpec, StageSpec, QueueSpec}
use flow_pipe.Specs.Normalize.{insert_by_name, sort_by_name, default_capacity, normalized}

pub data Difference : Type 0 where
  name_differs : Text → Text → Difference
  queues_differ stages_differ : ℕ → ℕ → Difference

abbrev counts : (ℕ → ℕ → Difference) → ℕ → ℕ → List Difference
counts line n m = if n == m then [] else line n m ∷ []

-- Diff
unfoldable pub diff : FlowSpec → FlowSpec → List Difference
diff a b =
    (if text_eq a.name b.name then [] else name_differs a.name b.name ∷ [])
    ++ counts queues_differ (length a.queues) (length b.queues)
    ++ counts stages_differ (length a.stages) (length b.stages)

module _ {A : Type 0} (name_of : A → Text) where
  length-insert_by_name :
      (x : A) (xs : List A) → length (insert_by_name name_of x xs) ≡ suc (length xs)
  unfolding insert_by_name
  length-insert_by_name x [] = refl
  length-insert_by_name x (y ∷ ys) = ground (arith, length-insert_by_name x ys)

  length-sort_by_name : (xs : List A) → length (sort_by_name name_of xs) ≡ length xs
  unfolding sort_by_name
  length-sort_by_name [] = refl
  length-sort_by_name (x ∷ xs) =
      length-insert_by_name x (sort_by_name name_of xs) ∙ ap suc (length-sort_by_name xs)

length-capacities : (qs : List QueueSpec) → length (map default_capacity qs) ≡ length qs
length-capacities [] = refl
length-capacities (q ∷ qs) = ap suc (length-capacities qs)

-- Diff says of two specs what it says of the specs that Normalize makes of them.
diff-normalized : (a b : FlowSpec) → diff (normalized a) (normalized b) ≡ diff a b
unfolding diff normalized
diff-normalized a b =
    rw
      (
        length-capacities (sort_by_name (λ (q : QueueSpec). q.name) a.queues),
        length-capacities (sort_by_name (λ (q : QueueSpec). q.name) b.queues),
        length-sort_by_name (λ (q : QueueSpec). q.name) a.queues,
        length-sort_by_name (λ (q : QueueSpec). q.name) b.queues,
        length-sort_by_name (λ (st : StageSpec). st.name) a.stages,
        length-sort_by_name (λ (st : StageSpec). st.name) b.stages,
      )
      refl
