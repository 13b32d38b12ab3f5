-- ===== src/Controller/Runtime/Identity.antt =====
-- The pods of a runtime carry what their workload selects by, and the checksum of their configuration.
use flow_pipe.Prelude.{◌≡◌, refl, Option, none, some, if◌then◌else◌, Bool, true, false, ◌∙◌}
use flow_pipe.Text.{Text, text_eq}
use flow_pipe.Text.FilePath.{is_empty}
use flow_pipe.Dict.{Dict, lookup, insert, lookup-insert, lookup-insert_all_but}
use flow_pipe.Proto.{Resources, KubernetesOptions}
use flow_pipe.Controller.Kube.{PodTemplate, RestartRule}
use flow_pipe.Controller.Runtime.Template.{
  flow_label_key, runtime_config_hash_key, resource_profile_key, Settings, apply_kubernetes_options,
  apply_resource_intent, annotate_profile, bare_template, runtime_pod_template,
}

apply_kubernetes_options-label :
    (t : PodTemplate) (o : Option KubernetesOptions)
    → lookup flow_label_key (apply_kubernetes_options t o).labels ≡ lookup flow_label_key t.labels
unfolding apply_kubernetes_options
apply_kubernetes_options-label t none = refl
apply_kubernetes_options-label t (some o) =
    lookup-insert_all_but flow_label_key o.pod_labels t.labels

apply_kubernetes_options-hash :
    (t : PodTemplate) (o : Option KubernetesOptions)
    → lookup runtime_config_hash_key (apply_kubernetes_options t o).annotations
      ≡ lookup runtime_config_hash_key t.annotations
unfolding apply_kubernetes_options
apply_kubernetes_options-hash t none = refl
apply_kubernetes_options-hash t (some o) =
    lookup-insert_all_but runtime_config_hash_key o.pod_annotations t.annotations

profile-ne-hash : text_eq resource_profile_key runtime_config_hash_key ≡ false
unfolding text_eq
profile-ne-hash = refl

annotate_profile-hash :
    (p : Option Text) (m : Dict)
    → lookup runtime_config_hash_key (annotate_profile p m) ≡ lookup runtime_config_hash_key m
unfolding annotate_profile
annotate_profile-hash none m = refl
annotate_profile-hash (some p) m = unless_empty (is_empty p)
  where
    unless_empty :
        (b : Bool)
        → lookup runtime_config_hash_key (if b then m else insert resource_profile_key p m)
          ≡ lookup runtime_config_hash_key m
    unless_empty true = refl
    unless_empty false =
        lookup-insert resource_profile_key runtime_config_hash_key p m ∙ rw profile-ne-hash refl

apply_resource_intent-hash :
    (t : PodTemplate) (r : Option Resources)
    → lookup runtime_config_hash_key (apply_resource_intent t r).annotations
      ≡ lookup runtime_config_hash_key t.annotations
unfolding apply_resource_intent
apply_resource_intent-hash t none = refl
apply_resource_intent-hash t (some r) = annotate_profile-hash r.profile t.annotations

apply_resource_intent-label :
    (t : PodTemplate) (r : Option Resources)
    → lookup flow_label_key (apply_resource_intent t r).labels ≡ lookup flow_label_key t.labels
unfolding apply_resource_intent
apply_resource_intent-label t none = refl
apply_resource_intent-label t (some r) = refl

-- Whatever labels, annotations and profile the spec asks for, the pod template has the flow's name
-- under the label by which the deployment and the daemon set select their pods, and the checksum of
-- the configuration under its annotation.
pub template_keeps_identity :
    (s : Settings) (restart : Option RestartRule)
    → (lookup flow_label_key (runtime_pod_template s restart).labels ≡ some s.flow_name)
      × (lookup runtime_config_hash_key (runtime_pod_template s restart).annotations
          ≡ some s.config_checksum)
unfolding runtime_pod_template bare_template lookup text_eq
template_keeps_identity s restart =
    let resourced = apply_resource_intent (bare_template s restart) s.resources in
    (
      apply_kubernetes_options-label resourced s.options
          ∙ apply_resource_intent-label (bare_template s restart) s.resources,
      apply_kubernetes_options-hash resourced s.options
          ∙ apply_resource_intent-hash (bare_template s restart) s.resources,
    )
