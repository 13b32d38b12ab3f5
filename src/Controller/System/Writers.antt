-- ===== src/Controller/System/Writers.antt =====
-- The API server as a writer of the controller's system: what it changes is what etcd announces.
use flow_pipe.Prelude.{ℕ, ◌≡◌, refl, ap, ◌∙◌, Bool, true, false, Option, none, some, if◌then◌else◌}
use flow_pipe.Text.{Text, text_eq, text_eq_iff}
use flow_pipe.Text.FilePath.Laws.{IsPlain}
use flow_pipe.Proto.{FlowSpec}
use flow_pipe.Remote.{ok, World}
use flow_pipe.Remote.Laws.{
  Keeps, Keeps-request, Keeps-bind, Keeps-lift, Keeps-pure, Keeps-raise, Keeps-if,
}
use flow_pipe.Etcd.{passes, put_all}
use flow_pipe.Backend.{Backend, get_key, commit}
use flow_pipe.Api.Keys.{active_key, version_spec_key}
use flow_pipe.Api.Keys.Layout.{version_spec_key-IsKey, differ}
use flow_pipe.Api.Keys.Distinct.{active-eq-active, version-eq-active, active-eq-version}
use flow_pipe.Api.Flows.{Prepared, prepare_version, commit_version, create_new_version, update_flow}
use flow_pipe.Api.Flows.Write.{Prepares, prepare_version-Prepares}
use flow_pipe.Controller.Kube.{Kube}
use flow_pipe.Controller.RateLimiting.{RateLimiting}
use flow_pipe.Controller.Reconcile.Frame.{KeyHolds}
use flow_pipe.Controller.System.{view}
use flow_pipe.Controller.System.Views.{view-agree}

-- The spec keys of two flows differ, whatever the versions.
version-ne-version :
    {m n : Text} (pm : IsPlain m) (pn : IsPlain n) (v u : ℕ)
    → text_eq m n ≡ false
    → text_eq (version_spec_key m v) (version_spec_key n u) ≡ false
version-ne-version {m} {n} pm pn v u d =
    differ (version_spec_key-IsKey pm v) (version_spec_key-IsKey pn u)
      (λ e. let same : m ≡ n = cc in cc (d, (text_eq_iff m n).1 same))

module _ (B : Backend) (name : Text) (j : Text) (o : Option Text)
    (other_active : text_eq (active_key name) j ≡ false)
    (other_version : (v : ℕ) → text_eq (version_spec_key name v) j ≡ false) where
  written-elsewhere :
      (spec : FlowSpec) (active : Option Text) (p : Prepared)
      → Prepares B name spec active p
      → (contents : Text → Option Text) → put_all contents p.puts j ≡ contents j
  written-elsewhere spec active p r contents =
      ap (λ (q : Prepared). put_all contents q.puts j) r.is_prepared
      ∙ rw (other_active, other_version r.next) refl

  commit_version-KeyHolds :
      (spec : FlowSpec) (active : Option Text) (p : Prepared)
      → prepare_version B name spec active ≡ ok p
      → Keeps (KeyHolds B j o) (commit_version B name p)
  unfolding commit_version commit
  commit_version-KeyHolds spec active p e =
      Keeps-bind _ _
        (Keeps-request _ _ λ s h.
          B.etcd.get-txn p.compare p.puts s j
          ∙ committed (passes (B.etcd.get s) p.compare) (B.etcd.get s) h)
        (λ b. Keeps-if b _ _ (Keeps-pure _) (Keeps-raise _))
    where
      committed :
          (b : Bool) (contents : Text → Option Text)
          → contents j ≡ o
          → (if b then put_all contents p.puts j else contents j) ≡ o
      committed true contents h =
          written-elsewhere spec active p (prepare_version-Prepares B name spec active p e) contents
          ∙ h
      committed false contents h = h

  create_new_version-KeyHolds :
      (spec : FlowSpec) → Keeps (KeyHolds B j o) (create_new_version B name spec)
  unfolding create_new_version get_key
  create_new_version-KeyHolds spec =
      Keeps-bind _ _ (Keeps-request _ _ (λ s h. h))
        λ active. Keeps-lift _ _ λ p e. commit_version-KeyHolds spec active p e

  update_flow-KeyHolds : (spec : Option FlowSpec) → Keeps (KeyHolds B j o) (update_flow B name spec)
  unfolding update_flow
  update_flow-KeyHolds none = Keeps-raise _
  update_flow-KeyHolds (some spec) = create_new_version-KeyHolds (record spec { name = name })

module _ (Q : RateLimiting) (B : Backend) (K : Kube) where
  -- UpdateFlow of the API server for a plain name, whatever befalls its calls, changes what the
  -- controller reads of no other flow with a plain name: it is one of the writers whose changes the
  -- watch stream announces under the right name.
  pub view-update_flow :
      (name m : Text) (spec : Option FlowSpec) (w : World B.etcd.Server)
      → IsPlain name
      → IsPlain m
      → text_eq name m ≡ false
      → view Q B K (update_flow B name spec w).1.server m ≡ view Q B K w.server m
  view-update_flow name m spec w pn pm d =
      let kept =
        λ (j : Text) (a : text_eq (active_key name) j ≡ false)
            (v : (u : ℕ) → text_eq (version_spec_key name u) j ≡ false).
          (update_flow-KeyHolds B name j (B.etcd.get w.server j) a v spec).after w refl in
      view-agree Q B K _ _ m
        (kept (active_key m) (active-eq-active pn pm ∙ d) (version-eq-active pn pm))
        (λ v.
          kept (version_spec_key m v) (active-eq-version pn pm v)
            (λ u. version-ne-version pn pm u v d))
