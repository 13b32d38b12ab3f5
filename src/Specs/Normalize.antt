-- ===== src/Specs/Normalize.antt =====
-- Normalize of pkg/flow/normalize/normalize.go. A spec is a value here; the source sorts the slices and
-- sets the capacities that the caller's message holds. sort.Slice is a sort by insertion: where two
-- names are the same, which no valid spec has, the source may leave them in another order.
pub mod Sorting
pub mod Verdict
mod Tests
use flow_pipe.Prelude.{ℕ, Option, none, some, List, [], ◌∷◌, map, ◌==◌, if◌then◌else◌}
use flow_pipe.Text.{Text}
use flow_pipe.Text.Order.{text_lt}
use flow_pipe.Proto.{FlowSpec, StageSpec, QueueSpec}

module _ {A : Type 0} (name_of : A → Text) where
  unfoldable pub insert_by_name : A → List A → List A
  insert_by_name x [] = x ∷ []
  insert_by_name x (y ∷ ys) =
      let rest = insert_by_name x ys in
      if text_lt (name_of y) (name_of x) then y ∷ rest else x ∷ y ∷ ys

  unfoldable pub sort_by_name : List A → List A
  sort_by_name [] = []
  sort_by_name (x ∷ xs) = insert_by_name x (sort_by_name xs)

abbrev pub default_capacity : QueueSpec → QueueSpec
default_capacity q = if q.capacity == 0 then record q { capacity = 128 } else q

-- What Normalize makes of a spec that is not nil.
unfoldable pub normalized : FlowSpec → FlowSpec
unfolding sort_by_name
normalized spec = record spec {
  queues = map default_capacity (sort_by_name (λ (q : QueueSpec). q.name) spec.queues);
  stages = sort_by_name (λ (st : StageSpec). st.name) spec.stages;
}

-- Normalize
unfoldable pub normalize : Option FlowSpec → Option FlowSpec
unfolding normalized
normalize none = none
normalize (some spec) = some (normalized spec)
