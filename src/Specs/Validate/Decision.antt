-- ===== src/Specs/Validate/Decision.antt =====
-- Validate finds no error in the valid specs and in no others.
use flow_pipe.Prelude.{
  ◌≡◌, ◌≢◌, refl, sym, inl, inr, ◌⊎◌, ◌↔◌, ◌≤◌, Bool, true, false, Option, none, some, List, [],
  ◌∷◌, map, if◌then◌else◌, arith, Elem, All,
}
use flow_pipe.Text.{Text}
use flow_pipe.Text.Names.{contains, NoRepeats, Unseen}
use flow_pipe.Text.FilePath.{is_empty}
use flow_pipe.Proto.{FlowSpec, StageSpec, QueueSpec}
use flow_pipe.Specs.Validate.{
  ValidationError, name_required, stages_required, validate_queues, validate_stage, validate_stages,
  queue_names, dangling, or_else_check, validate,
}
use flow_pipe.Specs.Validate.Rules.{
  queue_name, stage_name, Resolves, IsStage, IsValid, is_empty-false, contains-false,
  dangling-false,
}

module _ (queues seen : List Text) (s : StageSpec) where
  abbrev Passes : Type 0
  Passes =
      (is_empty s.name ≡ false)
      × (contains seen s.name ≡ false)
      × (is_empty s.type ≡ false)
      × (1 ≤ s.threads)
      × (dangling queues s.input_queue ≡ false)
      × (dangling queues s.output_queue ≡ false)

  validate_stage-Passes : (validate_stage queues seen s ≡ none) ↔ Passes
  unfolding validate_stage
  validate_stage-Passes = ground arith

  validate_stage_iff :
      (validate_stage queues seen s ≡ none) ↔ ((¬ Elem s.name seen) × IsStage queues s)
  validate_stage_iff = (
    λ e.
        let p = validate_stage-Passes.0 e in
        (
          (contains-false seen s.name).0 p.1,
          record {
            named = (is_empty-false s.name).0 p.0;
            typed = (is_empty-false s.type).0 p.2;
            threaded = p.3;
            input = (dangling-false queues s.input_queue).0 p.4;
            output = (dangling-false queues s.output_queue).0 p.5;
          },
        ),
    λ h. validate_stage-Passes.1 (
      (is_empty-false s.name).1 h.1.named,
      (contains-false seen s.name).1 h.0,
      (is_empty-false s.type).1 h.1.typed,
      h.1.threaded,
      (dangling-false queues s.input_queue).1 h.1.input,
      (dangling-false queues s.output_queue).1 h.1.output,
    ),
  )

-- One more name is seen: the rest differs from it too.
Unseen-cons :
    (seen : List Text) (n : Text) (names : List Text)
    → Unseen (n ∷ seen) names ↔ ((¬ Elem n names) × Unseen seen names)
Unseen-cons seen n [] = (λ u. (λ h. elim h [ ], tt), λ u. tt)
Unseen-cons seen n (m ∷ names) =
    let rest = Unseen-cons seen n names in
    (
      λ u. (
        λ h. elim h [ inl e ↦ u.0 (inl (sym e)) | inr h ↦ (rest.0 u.1).0 h ],
        ((λ h. u.0 (inr h)), (rest.0 u.1).1),
      ),
      λ u. (
        λ h. elim h [ inl e ↦ u.0 (inl (sym e)) | inr h ↦ u.1.0 h ],
        rest.1 ((λ h. u.0 (inr h)), u.1.1),
      ),
    )

or_else_check-none :
    (a b : Option ValidationError) → (or_else_check a b ≡ none) ↔ ((a ≡ none) × (b ≡ none))
or_else_check-none none b = (λ e. (refl, e), λ h. h.1)
or_else_check-none (some e) b = (λ h. ground arith, λ h. ground arith)

validate_stages_iff :
    (queues seen : List Text) (stages : List StageSpec)
    → (validate_stages queues seen stages ≡ none) ↔ (
        All (IsStage queues) stages
        × NoRepeats (map stage_name stages)
        × Unseen seen (map stage_name stages))
unfolding validate_stages
validate_stages_iff queues seen [] = (λ e. (tt, tt, tt), λ h. refl)
validate_stages_iff queues seen (s ∷ stages) =
    let first = validate_stage_iff queues seen s in
    let next = validate_stages_iff queues (s.name ∷ seen) stages in
    let both =
      or_else_check-none (validate_stage queues seen s)
        (validate_stages queues (s.name ∷ seen) stages) in
    let seen_or_named = Unseen-cons seen s.name (map stage_name stages) in
    (
      λ e.
          let f = first.0 (both.0 e).0 in
          let n = next.0 (both.0 e).1 in
          let u = seen_or_named.0 n.2 in ((f.1, n.0), (u.0, n.1), (f.0, u.1)),
      λ h. both.1 (first.1 (h.2.0, h.0.0), next.1 (h.0.1, h.1.1, seen_or_named.1 (h.1.0, h.2.1))),
    )

validate_queues-cons :
    (seen : List Text) (q : QueueSpec) (queues : List QueueSpec)
    → (validate_queues seen (q ∷ queues) ≡ none) ↔ (
        (is_empty q.name ≡ false)
        × (contains seen q.name ≡ false)
        × (validate_queues (q.name ∷ seen) queues ≡ none))
unfolding validate_queues
validate_queues-cons seen q queues = ground arith

validate_queues_iff :
    (seen : List Text) (queues : List QueueSpec)
    → (validate_queues seen queues ≡ none) ↔ (
        All (λ (q : QueueSpec). q.name ≢ []) queues
        × NoRepeats (map queue_name queues)
        × Unseen seen (map queue_name queues))
unfolding validate_queues
validate_queues_iff seen [] = (λ e. (tt, tt, tt), λ h. refl)
validate_queues_iff seen (q ∷ queues) =
    let split = validate_queues-cons seen q queues in
    let next = validate_queues_iff (q.name ∷ seen) queues in
    let seen_or_named = Unseen-cons seen q.name (map queue_name queues) in
    (
      λ e.
          let f = split.0 e in
          let n = next.0 f.2 in
          let u = seen_or_named.0 n.2 in
          (
            ((is_empty-false q.name).0 f.0, n.0),
            (u.0, n.1),
            ((contains-false seen q.name).0 f.1, u.1),
          ),
      λ h. split.1 (
        (is_empty-false q.name).1 h.0.0,
        (contains-false seen q.name).1 h.2.0,
        next.1 (h.0.1, h.1.1, seen_or_named.1 (h.1.0, h.2.1)),
      ),
    )

-- The set that the queues' loop fills holds the queues' names.
Elem-queue_names :
    (n : Text) (seen : List Text) (queues : List QueueSpec)
    → Elem n (queue_names seen queues) ↔ (Elem n (map queue_name queues) ⊎ Elem n seen)
Elem-queue_names n seen [] = (λ h. inr h, λ h. elim h [ inl e ↦ elim e [ ] | inr h ↦ h ])
Elem-queue_names n seen (q ∷ queues) =
    let rest = Elem-queue_names n (q.name ∷ seen) queues in
    (
      λ h. elim (rest.0 h) [
        | inl later ↦ inl (inr later)
        | inr (inl e) ↦ inl (inl e)
        | inr (inr before) ↦ inr before
      ],
      λ h. elim h [
        | inl (inl e) ↦ rest.1 (inr (inl e))
        | inl (inr later) ↦ rest.1 (inl later)
        | inr before ↦ rest.1 (inr (inr before))
      ],
    )

module _ (a b : List Text) (h : (n : Text) → Elem n a → Elem n b) where
  Resolves-in : (q : Option Text) → Resolves a q → Resolves b q
  Resolves-in none r = tt
  Resolves-in (some q) r = h q r

  All-IsStage-in : (stages : List StageSpec) → All (IsStage a) stages → All (IsStage b) stages
  All-IsStage-in [] r = tt
  All-IsStage-in (s ∷ stages) r =
      let first = r.0 in
      (
        record {
          named = first.named;
          typed = first.typed;
          threaded = first.threaded;
          input = Resolves-in s.input_queue first.input;
          output = Resolves-in s.output_queue first.output;
        },
        All-IsStage-in stages r.1,
      )

Unseen-nil : (names : List Text) → Unseen [] names
Unseen-nil [] = tt
Unseen-nil (n ∷ names) = (λ h. elim h [ ], Unseen-nil names)

abbrev checks : FlowSpec → Option ValidationError
checks spec =
    or_else_check (validate_queues [] spec.queues)
      (validate_stages (queue_names [] spec.queues) [] spec.stages)

staged-checks :
    (unnamed : Bool) (stages : List StageSpec) (found : Option ValidationError)
    → ((if unnamed
          then some name_required
          else elim stages [ [] ↦ some stages_required | _ ↦ found ])
        ≡ none)
      ↔ ((unnamed ≡ false) × (stages ≢ []) × (found ≡ none))
staged-checks true stages found = (λ e. ground arith, λ h. ground arith)
staged-checks false [] found = (λ e. ground arith, λ h. absurd (h.1 refl))
staged-checks false (s ∷ stages) found = (λ e. (refl, (λ e. ground arith), e), λ h. h.2)

validate-checks :
    (spec : FlowSpec)
    → (validate (some spec) ≡ none)
      ↔ ((is_empty spec.name ≡ false) × (spec.stages ≢ []) × (checks spec ≡ none))
unfolding validate
validate-checks spec = staged-checks (is_empty spec.name) spec.stages (checks spec)

module _ (spec : FlowSpec) where
  abbrev spec_queues : List Text
  spec_queues = map queue_name spec.queues

  to_map : (n : Text) → Elem n (queue_names [] spec.queues) → Elem n spec_queues
  to_map n h = elim ((Elem-queue_names n [] spec.queues).0 h) [ inl h ↦ h | inr e ↦ elim e [ ] ]

  from_map : (n : Text) → Elem n spec_queues → Elem n (queue_names [] spec.queues)
  from_map n h = (Elem-queue_names n [] spec.queues).1 (inl h)

  checks_iff : (checks spec ≡ none) ↔ (
      All (λ (q : QueueSpec). q.name ≢ []) spec.queues
      × NoRepeats spec_queues
      × All (IsStage spec_queues) spec.stages
      × NoRepeats (map stage_name spec.stages))
  checks_iff =
      let both =
        or_else_check-none (validate_queues [] spec.queues)
          (validate_stages (queue_names [] spec.queues) [] spec.stages) in
      let on_queues = validate_queues_iff [] spec.queues in
      let on_stages = validate_stages_iff (queue_names [] spec.queues) [] spec.stages in
      (
        λ e.
            let q = on_queues.0 (both.0 e).0 in
            let s = on_stages.0 (both.0 e).1 in
            (q.0, q.1, All-IsStage-in _ _ to_map spec.stages s.0, s.1),
        λ h. both.1 (
          on_queues.1 (h.0, h.1, Unseen-nil _),
          on_stages.1 (All-IsStage-in _ _ from_map spec.stages h.2, h.3, Unseen-nil _),
        ),
      )

-- Validate returns no error for a spec exactly if the spec is valid: it has a name and a stage; its
-- queues have names, no two the same; so have its stages; and each stage has a type and at least one
-- thread and refers only to queues of the spec.
pub validate_iff : (spec : FlowSpec) → (validate (some spec) ≡ none) ↔ IsValid spec
validate_iff spec = (
  λ e.
      let v = (validate-checks spec).0 e in
      let c = (checks_iff spec).0 v.2 in
      record {
        named = (is_empty-false spec.name).0 v.0;
        staged = v.1;
        queues_named = c.0;
        queues_differ = c.1;
        stages_sound = c.2;
        stages_differ = c.3;
      },
  λ h. (validate-checks spec).1 (
    (is_empty-false spec.name).1 h.named,
    h.staged,
    (checks_iff spec).1 (h.queues_named, h.queues_differ, h.stages_sound, h.stages_differ),
  ),
)
