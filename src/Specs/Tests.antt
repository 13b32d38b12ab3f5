-- ===== src/Specs/Tests.antt =====
-- Validate at a spec of one stage that reads from its one queue.
use flow_pipe.Prelude.{◌≡◌, ◌↔◌, refl, none, some, [], ◌∷◌}
use flow_pipe.Text.{codes, text_eq}
use flow_pipe.Proto.{FlowSpec, named}
use flow_pipe.Specs.Validate.{
  unknown_input_queue, validate, validate_queues, validate_stages, validate_stage,
}
use flow_pipe.Specs.Validate.Rules.{IsValid}
use flow_pipe.Specs.Validate.Decision.{validate_iff}

abbrev one_stage : FlowSpec
one_stage = record (named (codes "f")) {
  queues = record { name = codes "q"; capacity = 128 } ∷ [];
  stages =
      record {
        name = codes "s";
        type = codes "noop_source";
        threads = 1;
        input_queue = some (codes "q");
        output_queue = none;
      }
      ∷ [];
}

validate_iff_example : (validate (some one_stage) ≡ none) ↔ IsValid one_stage
validate_iff_example = validate_iff one_stage

validate-one_stage : validate (some one_stage) ≡ none
unfolding validate validate_queues validate_stages validate_stage text_eq
validate-one_stage = refl

validate-unknown :
    validate (some (record one_stage { queues = [] }))
    ≡ some (unknown_input_queue (codes "s") (codes "q"))
unfolding validate validate_queues validate_stages validate_stage text_eq
validate-unknown = refl
