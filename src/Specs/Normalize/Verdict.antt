-- ===== src/Specs/Normalize/Verdict.antt =====
-- Normalize changes no verdict of Validate, and to normalize twice is to normalize once.
use flow_pipe.Prelude.{
  ◌≡◌, ◌≢◌, refl, ap, ap₂, sym, ◌∙◌, subst, ◌↔◌, Option, none, some, List, [], ◌∷◌, map, Elem, All,
  arith,
}
use flow_pipe.Text.{Text}
use flow_pipe.Text.Names.{NoRepeats}
use flow_pipe.Proto.{FlowSpec, StageSpec, QueueSpec}
use flow_pipe.Specs.Validate.{validate}
use flow_pipe.Specs.Validate.Rules.{queue_name, stage_name, Resolves, IsStage, IsValid}
use flow_pipe.Specs.Validate.Decision.{validate_iff}
use flow_pipe.Specs.Normalize.{sort_by_name, default_capacity, normalized, normalize}
use flow_pipe.Specs.Normalize.Sorting.{
  sort_by_name-All, sort_by_name-Elem, sort_by_name-NoRepeats, sort_by_name-empty, AreSorted,
  sort_by_name-AreSorted, sort_by_name-AreSorted_eq,
}

default_capacity-name : (q : QueueSpec) → (default_capacity q).name ≡ q.name
default_capacity-name q = ground arith

default_capacity-idempotent :
    (q : QueueSpec) → default_capacity (default_capacity q) ≡ default_capacity q
default_capacity-idempotent q = ground arith

capacities-names :
    (qs : List QueueSpec) → map queue_name (map default_capacity qs) ≡ map queue_name qs
capacities-names [] = refl
capacities-names (q ∷ qs) =
    ap (λ n. n ∷ map queue_name (map default_capacity qs)) (default_capacity-name q)
    ∙ ap (λ ns. q.name ∷ ns) (capacities-names qs)

capacities-All :
    (qs : List QueueSpec)
    → All (λ (q : QueueSpec). q.name ≢ []) (map default_capacity qs)
      ↔ All (λ (q : QueueSpec). q.name ≢ []) qs
capacities-All [] = (λ h. h, λ h. h)
capacities-All (q ∷ qs) =
    let rest = capacities-All qs in
    (
      λ h. (subst (λ n. n ≢ []) (default_capacity-name q) h.0, rest.0 h.1),
      λ h. (subst (λ n. n ≢ []) (sym (default_capacity-name q)) h.0, rest.1 h.1),
    )

capacities-AreSorted :
    (qs : List QueueSpec) → AreSorted queue_name qs → AreSorted queue_name (map default_capacity qs)
capacities-AreSorted [] h = tt
capacities-AreSorted (q ∷ []) h = tt
capacities-AreSorted (q ∷ r ∷ qs) h =
    (rw (default_capacity-name q, default_capacity-name r) h.0, capacities-AreSorted (r ∷ qs) h.1)

capacities-idempotent :
    (qs : List QueueSpec) → map default_capacity (map default_capacity qs) ≡ map default_capacity qs
capacities-idempotent [] = refl
capacities-idempotent (q ∷ qs) =
    ap (λ p. p ∷ map default_capacity (map default_capacity qs)) (default_capacity-idempotent q)
    ∙ ap (λ ps. default_capacity q ∷ ps) (capacities-idempotent qs)

-- The stages refer to queues by name, so that only the names count.
Resolves-same :
    (ns ms : List Text)
    → ((n : Text) → Elem n ns → Elem n ms)
    → (o : Option Text) → Resolves ns o
    → Resolves ms o
Resolves-same ns ms h none r = tt
Resolves-same ns ms h (some q) r = h q r

stages-same :
    (ns ms : List Text)
    → ((n : Text) → Elem n ns → Elem n ms)
    → (ss : List StageSpec) → All (IsStage ns) ss
    → All (IsStage ms) ss
stages-same ns ms h [] a = tt
stages-same ns ms h (s ∷ ss) a = (
  record {
    named = a.0.named;
    typed = a.0.typed;
    threaded = a.0.threaded;
    input = Resolves-same ns ms h s.input_queue a.0.input;
    output = Resolves-same ns ms h s.output_queue a.0.output;
  },
  stages-same ns ms h ss a.1,
)

module _ (spec : FlowSpec) where
  sorted_queues : List QueueSpec
  sorted_queues = sort_by_name queue_name spec.queues

  names_in :
      (n : Text)
      → Elem n (map queue_name (normalized spec).queues)
      → Elem n (map queue_name spec.queues)
  unfolding normalized sorted_queues
  names_in n h =
      (sort_by_name-Elem queue_name n spec.queues).0
        (subst (Elem n) (capacities-names (sort_by_name queue_name spec.queues)) h)

  names_out :
      (n : Text)
      → Elem n (map queue_name spec.queues)
      → Elem n (map queue_name (normalized spec).queues)
  unfolding normalized sorted_queues
  names_out n h =
      subst (Elem n) (sym (capacities-names (sort_by_name queue_name spec.queues)))
        ((sort_by_name-Elem queue_name n spec.queues).1 h)

  stages_sound_iff :
      All (IsStage (map queue_name (normalized spec).queues)) (normalized spec).stages
      ↔ All (IsStage (map queue_name spec.queues)) spec.stages
  unfolding normalized
  stages_sound_iff =
      let ns = map queue_name spec.queues in
      let ms = map queue_name (normalized spec).queues in
      (
        λ h.
            stages-same ms ns names_in spec.stages
              ((sort_by_name-All stage_name (IsStage ms) spec.stages).0 h),
        λ h.
            (sort_by_name-All stage_name (IsStage ms) spec.stages).1
              (stages-same ns ms names_out spec.stages h),
      )

  queues_differ_iff :
      NoRepeats (map queue_name (normalized spec).queues) ↔ NoRepeats (map queue_name spec.queues)
  unfolding normalized sorted_queues
  queues_differ_iff =
      let same = capacities-names sorted_queues in
      let sorted = sort_by_name-NoRepeats queue_name spec.queues in
      (λ h. sorted.0 (subst NoRepeats same h), λ h. subst NoRepeats (sym same) (sorted.1 h))

  pub normalized-IsValid : IsValid (normalized spec) ↔ IsValid spec
  unfolding normalized sorted_queues
  normalized-IsValid = (
    λ v. record {
      named = v.named;
      staged = λ e. v.staged ((sort_by_name-empty stage_name spec.stages).1 e);
      queues_named = names.0 (named.0 v.queues_named);
      queues_differ = queues_differ_iff.0 v.queues_differ;
      stages_sound = stages_sound_iff.0 v.stages_sound;
      stages_differ = (sort_by_name-NoRepeats stage_name spec.stages).0 v.stages_differ;
    },
    λ v. record {
      named = v.named;
      staged = λ e. v.staged ((sort_by_name-empty stage_name spec.stages).0 e);
      queues_named = named.1 (names.1 v.queues_named);
      queues_differ = queues_differ_iff.1 v.queues_differ;
      stages_sound = stages_sound_iff.1 v.stages_sound;
      stages_differ = (sort_by_name-NoRepeats stage_name spec.stages).1 v.stages_differ;
    },
  )
    where
      names :
          All (λ (q : QueueSpec). q.name ≢ []) sorted_queues
          ↔ All (λ (q : QueueSpec). q.name ≢ []) spec.queues
      names = sort_by_name-All queue_name (λ (q : QueueSpec). q.name ≢ []) spec.queues

      named :
          All (λ (q : QueueSpec). q.name ≢ []) (map default_capacity sorted_queues)
          ↔ All (λ (q : QueueSpec). q.name ≢ []) sorted_queues
      named = capacities-All sorted_queues

  normal_queues-sorted : sort_by_name queue_name (normalized spec).queues ≡ (normalized spec).queues
  unfolding normalized sorted_queues
  normal_queues-sorted =
      sort_by_name-AreSorted_eq queue_name (normalized spec).queues
        (capacities-AreSorted sorted_queues (sort_by_name-AreSorted queue_name spec.queues))

  normal_stages-sorted : sort_by_name stage_name (normalized spec).stages ≡ (normalized spec).stages
  unfolding normalized
  normal_stages-sorted =
      sort_by_name-AreSorted_eq stage_name (normalized spec).stages
        (sort_by_name-AreSorted stage_name spec.stages)

  normal_queues-capped : map default_capacity (normalized spec).queues ≡ (normalized spec).queues
  unfolding normalized sorted_queues
  normal_queues-capped = capacities-idempotent sorted_queues

normalized-idempotent : (spec : FlowSpec) → normalized (normalized spec) ≡ normalized spec
unfolding normalized sorted_queues
normalized-idempotent spec =
    ap₂ (λ qs ss. record spec { queues = qs; stages = ss })
      (ap (map default_capacity) (normal_queues-sorted spec) ∙ normal_queues-capped spec)
      (normal_stages-sorted spec)

-- Validate accepts a spec that Normalize has made if and only if it accepts the spec it was made of, and
-- to normalize a normalized spec changes nothing.
pub validate-normalize :
    (o : Option FlowSpec)
    → ((validate (normalize o) ≡ none) ↔ (validate o ≡ none))
      × (normalize (normalize o) ≡ normalize o)
unfolding normalize normalized sorted_queues
validate-normalize none = ((λ h. h, λ h. h), refl)
validate-normalize (some spec) = (verdict, ap some (normalized-idempotent spec))
  where
    same : IsValid (normalized spec) ↔ IsValid spec
    same = normalized-IsValid spec

    verdict : (validate (some (normalized spec)) ≡ none) ↔ (validate (some spec) ≡ none)
    verdict = (
      λ h. (validate_iff spec).1 (same.0 ((validate_iff (normalized spec)).0 h)),
      λ h. (validate_iff (normalized spec)).1 (same.1 ((validate_iff spec).0 h)),
    )
