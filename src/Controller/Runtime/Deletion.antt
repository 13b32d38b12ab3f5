-- ===== src/Controller/Runtime/Deletion.antt =====
-- What deleteRuntimeResources leaves behind.
pub mod Success
use flow_pipe.Prelude.{
  ◌≡◌, ◌≢◌, refl, sym, ◌∙◌, ap, Bool, true, false, Option, none, some, [], ◌∷◌, List, inl, arith,
  if◌then◌else◌,
}
use flow_pipe.Text.{Text}
use flow_pipe.Text.FilePath.{is_empty}
use flow_pipe.Remote.{
  Result, ok, err, lift, Outcome, served, refused, lost, World, Remote, attempt, ◌>>=◌, raise,
}
use flow_pipe.Remote.Laws.{
  Keeps, Keeps-request, Keeps-bind, Keeps-attempt, Keeps-result, Keeps-raise, Keeps-if,
}
use flow_pipe.Controller.Kube.{
  Kube, Calls, Kind, config_map, deployment, daemon_set, job, cron_job, Body, Object, Apart,
  RuntimeError, name_required, delete_object,
}
use flow_pipe.Controller.Runtime.{
  runtime_name, config_name, note_failure, join_failures, delete_all, delete_runtime_resources,
}
use flow_pipe.Controller.Runtime.Frame.{Holds}

-- What is left of an object when its deletion ends so: a refused request leaves it there.
abbrev pub left_by : {A : Type 0} → Outcome → Option A → Option A
left_by refused o = o
left_by _ o = none

abbrev pub reply : Outcome → Option (Unit {0})
reply served = some tt
reply _ = none

module _ (K : Kube) where
  abbrev after_delete : Outcome → Kind → Text → Text → K.Cluster → K.Cluster
  after_delete refused k ns n c = c
  after_delete _ k ns n c = K.remove k ns n c

  find-after_delete :
      (o : Outcome) (k : Kind) (ns n : Text) (c : K.Cluster)
      → K.find (after_delete o k ns n c) k ns n ≡ left_by o (K.find c k ns n)
  find-after_delete served k ns n c = K.find-remove k ns n c
  find-after_delete refused k ns n c = refl
  find-after_delete lost k ns n c = K.find-remove k ns n c

  find-after_delete_other :
      (o : Outcome) (k : Kind) (ns n : Text) (c : K.Cluster) (j : Kind) (m : Text)
      → k ≢ j
      → K.find (after_delete o k ns n c) j ns m ≡ K.find c j ns m
  find-after_delete_other served k ns n c j m d = K.find-remove_apart k ns n c j ns m (inl d)
  find-after_delete_other refused k ns n c j m d = refl
  find-after_delete_other lost k ns n c j m d = K.find-remove_apart k ns n c j ns m (inl d)

  attempt-delete_object :
      {A : Type 0} (k : Kind) (ns n : Text) (f : Option (Unit {0}) → Calls K A) (o : Outcome)
      (net : List Outcome) (c : K.Cluster)
      → (attempt (delete_object K k ns n) >>= f) (record { server = c; net = o ∷ net })
        ≡ f (reply o) (record { server = after_delete o k ns n c; net = net })
  unfolding delete_object ◌>>=◌
  attempt-delete_object k ns n f served net c = refl
  attempt-delete_object k ns n f refused net c = refl
  attempt-delete_object k ns n f lost net c = refl

  module _ (ns flow : Text) (o1 o2 o3 o4 o5 : Outcome) (net : List Outcome) (c : K.Cluster) where
    abbrev remaining : K.Cluster
    remaining = after_delete o5 config_map ns (config_name flow) (
        after_delete o4 cron_job ns flow (
          after_delete o3 job ns flow (
            after_delete o2 daemon_set ns (runtime_name flow)
              (after_delete o1 deployment ns (runtime_name flow) c))))

    abbrev pub begin : World K.Cluster
    begin = record { server = c; net = o1 ∷ o2 ∷ o3 ∷ o4 ∷ o5 ∷ net }

    pub delete_all-end : delete_all K ns flow begin ≡ (
      join_failures K (
          note_failure K deployment (reply o1) (
            note_failure K daemon_set (reply o2) (
              note_failure K job
                (reply o3)
                (note_failure K cron_job (reply o4) (note_failure K config_map (reply o5) []))))),
      record { server = remaining; net = net },
    )
    unfolding delete_all lift
    delete_all-end =
        attempt-delete_object deployment ns (runtime_name flow) _ o1 _ c
        ∙ attempt-delete_object daemon_set ns (runtime_name flow) _ o2 _ _
        ∙ attempt-delete_object job ns flow _ o3 _ _
        ∙ attempt-delete_object cron_job ns flow _ o4 _ _
        ∙ attempt-delete_object config_map ns (config_name flow) _ o5 _ _

    pub delete_runtime_resources-end :
        is_empty flow ≡ false
        → delete_runtime_resources K true ns flow begin ≡ delete_all K ns flow begin
    unfolding delete_runtime_resources
    delete_runtime_resources-end e = rw e refl

    -- The object that deleteRuntimeResources leaves under this kind and name.
    abbrev pub Remains : (k : Kind) → Text → Option (Object (Body k)) → Type 0
    Remains k n o = K.find (delete_runtime_resources K true ns flow begin).1.server k ns n ≡ o

    remains :
        is_empty flow ≡ false
        → (k : Kind) (n : Text) (o : Option (Object (Body k))) → K.find remaining k ns n ≡ o
        → Remains k n o
    remains e k n o h =
        ap (λ r. K.find r.1.server k ns n) (delete_runtime_resources-end e ∙ delete_all-end) ∙ h

    abbrev other_kind :
        (o : Outcome) (k : Kind) (n : Text) (d : K.Cluster) (j : Kind) (m : Text)
        → k ≢ j
        → K.find (after_delete o k ns n d) j ns m ≡ K.find d j ns m
    other_kind o k n d j m = find-after_delete_other o k ns n d j m

    deployment_left :
        K.find remaining deployment ns (runtime_name flow)
        ≡ left_by o1 (K.find c deployment ns (runtime_name flow))
    deployment_left =
        other_kind o5 config_map _ _ deployment _ (λ e. ground arith)
        ∙ other_kind o4 cron_job _ _ deployment _ (λ e. ground arith)
        ∙ other_kind o3 job _ _ deployment _ (λ e. ground arith)
        ∙ other_kind o2 daemon_set _ _ deployment _ (λ e. ground arith)
        ∙ find-after_delete o1 deployment ns (runtime_name flow) c

    daemon_set_left :
        K.find remaining daemon_set ns (runtime_name flow)
        ≡ left_by o2 (K.find c daemon_set ns (runtime_name flow))
    daemon_set_left =
        other_kind o5 config_map _ _ daemon_set _ (λ e. ground arith)
        ∙ other_kind o4 cron_job _ _ daemon_set _ (λ e. ground arith)
        ∙ other_kind o3 job _ _ daemon_set _ (λ e. ground arith)
        ∙ find-after_delete o2 daemon_set ns (runtime_name flow) _
        ∙ ap (left_by o2) (other_kind o1 deployment _ _ daemon_set _ (λ e. ground arith))

    job_left : K.find remaining job ns flow ≡ left_by o3 (K.find c job ns flow)
    job_left =
        other_kind o5 config_map _ _ job _ (λ e. ground arith)
        ∙ other_kind o4 cron_job _ _ job _ (λ e. ground arith)
        ∙ find-after_delete o3 job ns flow _
        ∙ ap (left_by o3) (
            other_kind o2 daemon_set _ _ job _ (λ e. ground arith)
            ∙ other_kind o1 deployment _ _ job _ (λ e. ground arith))

    cron_job_left : K.find remaining cron_job ns flow ≡ left_by o4 (K.find c cron_job ns flow)
    cron_job_left =
        other_kind o5 config_map _ _ cron_job _ (λ e. ground arith)
        ∙ find-after_delete o4 cron_job ns flow _
        ∙ ap (left_by o4) (
            other_kind o3 job _ _ cron_job _ (λ e. ground arith)
            ∙ other_kind o2 daemon_set _ _ cron_job _ (λ e. ground arith)
            ∙ other_kind o1 deployment _ _ cron_job _ (λ e. ground arith))

    config_map_left :
        K.find remaining config_map ns (config_name flow)
        ≡ left_by o5 (K.find c config_map ns (config_name flow))
    config_map_left =
        find-after_delete o5 config_map ns (config_name flow) _
        ∙ ap (left_by o5) (
            other_kind o4 cron_job _ _ config_map _ (λ e. ground arith)
            ∙ other_kind o3 job _ _ config_map _ (λ e. ground arith)
            ∙ other_kind o2 daemon_set _ _ config_map _ (λ e. ground arith)
            ∙ other_kind o1 deployment _ _ config_map _ (λ e. ground arith))

    -- deleteRuntimeResources of a flow with a name, with any outcomes of its five deletions: each of
    -- the deployment, the daemon set, the job, the cron job and the config map is gone, unless its own
    -- deletion was refused, and then it is what it was; no failure keeps the others from being tried.
    pub delete_runtime_resources_tries_all :
        is_empty flow ≡ false
        → Remains deployment
            (runtime_name flow)
            (left_by o1 (K.find c deployment ns (runtime_name flow)))
          × Remains daemon_set
              (runtime_name flow)
              (left_by o2 (K.find c daemon_set ns (runtime_name flow)))
          × Remains job flow (left_by o3 (K.find c job ns flow))
          × Remains cron_job flow (left_by o4 (K.find c cron_job ns flow))
          × Remains config_map
              (config_name flow)
              (left_by o5 (K.find c config_map ns (config_name flow)))
    delete_runtime_resources_tries_all e = (
      remains e deployment _ _ deployment_left,
      remains e daemon_set _ _ daemon_set_left,
      remains e job _ _ job_left,
      remains e cron_job _ _ cron_job_left,
      remains e config_map _ _ config_map_left,
    )
