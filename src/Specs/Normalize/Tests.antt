-- ===== src/Specs/Normalize/Tests.antt =====
-- Normalize at a spec with two queues out of order, one of them without a capacity.
use flow_pipe.Prelude.{◌≡◌, ◌↔◌, refl, none, some, [], ◌∷◌}
use flow_pipe.Text.{codes}
use flow_pipe.Text.Order.{text_lt}
use flow_pipe.Proto.{FlowSpec, named}
use flow_pipe.Specs.Validate.{validate}
use flow_pipe.Specs.Normalize.{insert_by_name, sort_by_name, normalized, normalize}
use flow_pipe.Specs.Normalize.Verdict.{validate-normalize}

abbrev two_queues : FlowSpec
two_queues = record (named (codes "f")) {
  queues =
      record { name = codes "q2"; capacity = 0 } ∷ record { name = codes "q1"; capacity = 16 } ∷ [];
}

abbrev in_order : FlowSpec
in_order = record (named (codes "f")) {
  queues =
      record { name = codes "q1"; capacity = 16 }
      ∷ record { name = codes "q2"; capacity = 128 }
      ∷ [];
}

normalize-two_queues : normalize (some two_queues) ≡ some in_order
unfolding normalize normalized sort_by_name insert_by_name text_lt
normalize-two_queues = refl

validate-normalize_example :
    ((validate (normalize (some two_queues)) ≡ none) ↔ (validate (some two_queues) ≡ none))
    × (normalize (normalize (some two_queues)) ≡ normalize (some two_queues))
validate-normalize_example = validate-normalize (some two_queues)
