-- ===== src/Etcd/Table/Codecs.antt =====
-- Encodings of the specs that have only a name and a version, and of the statuses whose texts are
-- empty. Any other message fails to encode.
use flow_pipe.Prelude.{
  ℕ, zero, suc, ◌≡◌, Bool, true, false, ◌&&◌, Option, none, some, List, [], ◌∷◌, arith,
  if◌then◌else◌,
}
use flow_pipe.Text.{Text}
use flow_pipe.Text.FilePath.{is_empty}
use flow_pipe.Proto.{FlowSpec, FlowStatus, named, FlowState}
use flow_pipe.Etcd.{Codec}

abbrev pub is_nil {ℓ} : {A : Type ℓ} → List A → Bool
is_nil [] = true
is_nil (x ∷ xs) = false

abbrev pub is_none {ℓ} : {A : Type ℓ} → Option A → Bool
is_none none = true
is_none (some x) = false

abbrev is_bare : FlowSpec → Bool
is_bare s =
    is_none s.execution
    && is_nil s.stages
    && is_nil s.queues
    && is_nil s.labels
    && is_none s.kubernetes
    && is_none s.kubernetes_options
    && is_nil s.env

unfoldable pub marshal_spec : FlowSpec → Option Text
marshal_spec s = if is_bare s then some (s.version ∷ s.name) else none

unfoldable pub unmarshal_spec : Text → Option FlowSpec
unmarshal_spec [] = none
unmarshal_spec (v ∷ n) = some (record (named n) { version = v })

pub unmarshal-marshal_spec :
    (s : FlowSpec) (b : Text) → marshal_spec s ≡ some b → unmarshal_spec b ≡ some s
unfolding marshal_spec unmarshal_spec
unmarshal-marshal_spec s b h = ground arith

abbrev pub spec_codec : Codec FlowSpec
spec_codec = record {
  marshal = marshal_spec;
  unmarshal = unmarshal_spec;
  unmarshal-marshal = unmarshal-marshal_spec;
}

abbrev state_of : ℕ → Option FlowState
state_of zero = some FlowState.unspecified
state_of (suc zero) = some FlowState.deploying
state_of n = none

abbrev code_of : FlowState → Option ℕ
code_of FlowState.unspecified = some 0
code_of FlowState.deploying = some 1
code_of s = none

unfoldable pub marshal_status : FlowStatus → Option Text
marshal_status s = elim (code_of s.state) [
  | none ↦ none
  | some c ↦
      if is_empty s.message then some (c ∷ s.active_version ∷ s.last_updated ∷ s.workload) else none
]

unfoldable pub unmarshal_status : Text → Option FlowStatus
unmarshal_status (c ∷ v ∷ t ∷ workload) = elim (state_of c) [
  | none ↦ none
  | some s ↦ some (record {
    state = s;
    message = [];
    active_version = v;
    workload = workload;
    last_updated = t;
  })
]
unmarshal_status b = none

pub unmarshal-marshal_status :
    (s : FlowStatus) (b : Text) → marshal_status s ≡ some b → unmarshal_status b ≡ some s
unfolding marshal_status unmarshal_status
unmarshal-marshal_status s b h = ground arith

abbrev pub status_codec : Codec FlowStatus
status_codec = record {
  marshal = marshal_status;
  unmarshal = unmarshal_status;
  unmarshal-marshal = unmarshal-marshal_status;
}
