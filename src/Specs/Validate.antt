-- ===== src/Specs/Validate.antt =====
-- Validate of pkg/flow/validate/validate.go. The result is the error, or `none` for nil. An error
-- stands for its field and its message, with the names that go into the message.
pub mod Rules
pub mod Decision
use flow_pipe.Prelude.{
  ℕ, Bool, true, false, Option, none, some, List, [], ◌∷◌, ltb, if◌then◌else◌, not,
}
use flow_pipe.Text.{Text}
use flow_pipe.Text.Names.{contains}
use flow_pipe.Text.FilePath.{is_empty}
use flow_pipe.Proto.{FlowSpec, StageSpec, QueueSpec}

pub data ValidationError : Type 0 where
  spec_nil name_required stages_required queue_name_required stage_name_required : ValidationError
  duplicate_queue duplicate_stage type_missing threads_missing : Text → ValidationError
  unknown_input_queue unknown_output_queue : Text → Text → ValidationError

-- The queues' loop, with the names seen so far.
unfoldable pub validate_queues : List Text → List QueueSpec → Option ValidationError
validate_queues seen [] = none
validate_queues seen (q ∷ queues) =
    let rest = validate_queues (q.name ∷ seen) queues in
    if is_empty q.name
    then some queue_name_required
    else if contains seen q.name
    then some (duplicate_queue q.name)
    else rest

-- A reference to a queue that is not in the set.
abbrev pub dangling : List Text → Option Text → Bool
dangling queues none = false
dangling queues (some q) = not (contains queues q)

abbrev pub target : Option Text → Text
target none = []
target (some q) = q

-- The body of the stages' loop.
unfoldable pub validate_stage : List Text → List Text → StageSpec → Option ValidationError
validate_stage queues seen s =
    if is_empty s.name
    then some stage_name_required
    else if contains seen s.name
    then some (duplicate_stage s.name)
    else if is_empty s.type
    then some (type_missing s.name)
    else if ltb s.threads 1
    then some (threads_missing s.name)
    else if dangling queues s.input_queue
    then some (unknown_input_queue s.name (target s.input_queue))
    else if dangling queues s.output_queue
    then some (unknown_output_queue s.name (target s.output_queue))
    else none

abbrev pub or_else_check : Option ValidationError → Option ValidationError → Option ValidationError
or_else_check none next = next
or_else_check (some e) next = some e

-- The stages' loop, with the names seen so far.
unfoldable pub validate_stages : List Text → List Text → List StageSpec → Option ValidationError
validate_stages queues seen [] = none
validate_stages queues seen (s ∷ stages) =
    or_else_check (validate_stage queues seen s) (validate_stages queues (s.name ∷ seen) stages)

-- The names that the queues' loop has put into its set.
abbrev pub queue_names : List Text → List QueueSpec → List Text
queue_names seen [] = seen
queue_names seen (q ∷ queues) = queue_names (q.name ∷ seen) queues

-- Validate
unfoldable pub validate : Option FlowSpec → Option ValidationError
validate none = some spec_nil
validate (some spec) = if is_empty spec.name then some name_required else elim spec.stages [
  | [] ↦ some stages_required
  | _ ↦
      or_else_check (validate_queues [] spec.queues)
        (validate_stages (queue_names [] spec.queues) [] spec.stages)
]
