-- ===== src/Specs/Validate/Rules.antt =====
-- What a valid spec is, said without the order of the checks.
use flow_pipe.Prelude.{
  ◌≡◌, ◌≢◌, refl, ap, inl, inr, ◌↔◌, ◌≤◌, false, Bool-cases, Option, none, some, List, [], ◌∷◌, map,
  not, arith, Elem, All,
}
use flow_pipe.Text.{Text}
use flow_pipe.Text.Names.{contains, contains_iff, NoRepeats}
use flow_pipe.Text.FilePath.{is_empty}
use flow_pipe.Proto.{FlowSpec, StageSpec, QueueSpec}
use flow_pipe.Specs.Validate.{dangling}

abbrev pub queue_name : QueueSpec → Text
queue_name q = q.name

abbrev pub stage_name : StageSpec → Text
stage_name s = s.name

-- An optional reference leads to one of the queues.
abbrev pub Resolves : List Text → Option Text → Type 0
Resolves queues none = Unit
Resolves queues (some q) = Elem q queues

pub record IsStage (queues : List Text) (s : StageSpec) : Type 0 where
  pub named : s.name ≢ []
  pub typed : s.type ≢ []
  pub threaded : 1 ≤ s.threads
  pub input : Resolves queues s.input_queue
  pub output : Resolves queues s.output_queue

-- A valid spec: it has a name and a stage; the queues have names, no two the same; so have the stages;
-- and each stage has a type, a thread, and refers to queues of the spec only.
pub record IsValid (spec : FlowSpec) : Type 0 where
  pub named : spec.name ≢ []
  pub staged : spec.stages ≢ []
  pub queues_named : All (λ (q : QueueSpec). q.name ≢ []) spec.queues
  pub queues_differ : NoRepeats (map queue_name spec.queues)
  pub stages_sound : All (IsStage (map queue_name spec.queues)) spec.stages
  pub stages_differ : NoRepeats (map stage_name spec.stages)

pub is_empty-false : (s : Text) → (is_empty s ≡ false) ↔ (s ≢ [])
is_empty-false [] = (λ e. ground arith, λ h. absurd (h refl))
is_empty-false (c ∷ s) = (λ e h. ground arith, λ h. refl)

pub contains-false : (seen : List Text) (n : Text) → (contains seen n ≡ false) ↔ (¬ Elem n seen)
contains-false seen n = (
  λ e h. cc (e, (contains_iff seen n).1 h),
  λ h. elim (Bool-cases (contains seen n)) [
    | inl found ↦ absurd (h ((contains_iff seen n).0 found))
    | inr missing ↦ missing
  ],
)

pub dangling-false :
    (queues : List Text) (q : Option Text) → (dangling queues q ≡ false) ↔ Resolves queues q
dangling-false queues none = (λ e. tt, λ h. refl)
dangling-false queues (some q) =
    (λ e. (contains_iff queues q).0 (ground arith), λ h. ap not ((contains_iff queues q).1 h))
