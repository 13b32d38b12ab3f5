-- ===== src/Controller/Runtime/Deletion/Success.antt =====
-- What a deleteRuntimeResources that returns no error has done.
use flow_pipe.Prelude.{◌≡◌, refl, sym, ◌∙◌, ap, true, false, Option, none, [], ◌∷◌, List, arith}
use flow_pipe.Text.{Text}
use flow_pipe.Text.FilePath.{is_empty}
use flow_pipe.Remote.{ok, Outcome, served, refused, lost}
use flow_pipe.Controller.Kube.{Kube, Kind, config_map, deployment, daemon_set, job, cron_job}
use flow_pipe.Controller.Runtime.{
  runtime_name, config_name, note_failure, join_failures, delete_runtime_resources,
}
use flow_pipe.Controller.Runtime.Deletion.{
  left_by, reply, begin, Remains, delete_all-end, delete_runtime_resources-end,
  delete_runtime_resources_tries_all,
}

left_by_served : {A : Type 0} (o : Outcome) (x : Option A) → o ≡ served → left_by o x ≡ none
left_by_served o x e = ap (λ o. left_by o x) e

module _ (K : Kube) where
  join_failures-ok : (failed : List Kind) → join_failures K failed ≡ ok tt → failed ≡ []
  join_failures-ok [] e = refl
  join_failures-ok (k ∷ ks) e = ground arith

  note_failure-none :
      (k : Kind) (o : Outcome) (failed : List Kind)
      → note_failure K k (reply o) failed ≡ []
      → (o ≡ served) × (failed ≡ [])
  note_failure-none k served failed e = (refl, e)
  note_failure-none k refused failed e = ground arith
  note_failure-none k lost failed e = ground arith

  -- deleteRuntimeResources of a flow with a name: where it returns no error, the deployment, the
  -- daemon set, the job, the cron job and the config map of the flow are all gone.
  pub delete_runtime_resources_succeeded :
      (ns flow : Text) (o1 o2 o3 o4 o5 : Outcome) (net : List Outcome) (c : K.Cluster)
      → is_empty flow ≡ false
      → (delete_runtime_resources K true ns flow (begin K ns flow o1 o2 o3 o4 o5 net c)).0 ≡ ok tt
      → Remains K ns flow o1 o2 o3 o4 o5 net c deployment (runtime_name flow) none
        × Remains K ns flow o1 o2 o3 o4 o5 net c daemon_set (runtime_name flow) none
        × Remains K ns flow o1 o2 o3 o4 o5 net c job flow none
        × Remains K ns flow o1 o2 o3 o4 o5 net c cron_job flow none
        × Remains K ns flow o1 o2 o3 o4 o5 net c config_map (config_name flow) none
  delete_runtime_resources_succeeded ns flow o1 o2 o3 o4 o5 net c e done =
      let failures = join_failures-ok _ (
        sym (
          ap (λ r. r.0)
            (delete_runtime_resources-end K ns flow o1 o2 o3 o4 o5 net c e
              ∙ delete_all-end K ns flow o1 o2 o3 o4 o5 net c))
        ∙ done) in
      let first = note_failure-none _ o1 _ failures in
      let second = note_failure-none _ o2 _ first.1 in
      let third = note_failure-none _ o3 _ second.1 in
      let fourth = note_failure-none _ o4 _ third.1 in
      let fifth = note_failure-none _ o5 _ fourth.1 in
      let left = delete_runtime_resources_tries_all K ns flow o1 o2 o3 o4 o5 net c e in
      (
        left.0 ∙ left_by_served o1 _ first.0,
        left.1 ∙ left_by_served o2 _ second.0,
        left.2 ∙ left_by_served o3 _ third.0,
        left.3 ∙ left_by_served o4 _ fourth.0,
        left.4 ∙ left_by_served o5 _ fifth.0,
      )
