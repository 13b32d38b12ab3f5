-- ===== src/Controller/System/Views.antt =====
-- On what the view of a flow depends, and that a worker reads it.
use flow_pipe.Prelude.{ℕ, ◌≡◌, refl, ap, sym, ◌∙◌, fun_ext, Option, none, some, arith, false}
use flow_pipe.Text.{Text, text_eq}
use flow_pipe.Text.Decimal.{parse_uint}
use flow_pipe.Text.FilePath.Laws.{IsPlain}
use flow_pipe.Proto.{FlowSpec}
use flow_pipe.Remote.{ok, err, World, ◌>>=◌}
use flow_pipe.Remote.Reads.{Reads, Reads-request, Reads-pure, Reads-lift, Reads-bind}
use flow_pipe.Backend.{Backend, invalid_active_version, get_key}
use flow_pipe.Api.Keys.{active_key, version_spec_key, status_key}
use flow_pipe.Api.Keys.Distinct.{status-eq-active, status-eq-version}
use flow_pipe.Controller.Kube.{Kube}
use flow_pipe.Controller.RateLimiting.{RateLimiting}
use flow_pipe.Controller.Flows.{get_active_flow, follow_active, decode_spec}
use flow_pipe.Controller.Runtime.{Rendering}
use flow_pipe.Controller.Reconcile.{ControllerConfig, Found, Systems, act}
use flow_pipe.Controller.Reconcile.Frame.{KeyHolds, act-keeps, update_status-KeyHolds}
use flow_pipe.Controller.System.{view}

module _ (B : Backend) where
  follow_active-Reads : (name : Text) (active : Option Text) → Reads (follow_active B name active)
  unfolding get_key
  follow_active-Reads name none = Reads-pure _
  follow_active-Reads name (some active) =
      Reads-bind _ _ (Reads-lift _)
        λ version. Reads-bind _ _ (Reads-request _ _) (λ stored. Reads-lift _)

  pub get_active_flow-Reads : (name : Text) → Reads (get_active_flow B name)
  unfolding get_active_flow get_key
  get_active_flow-Reads name = Reads-bind _ _ (Reads-request _ _) (follow_active-Reads name)

  abbrev view_from : Option Text → (ℕ → Option Text) → Found
  view_from none stored = ok (none, 0)
  view_from (some active) stored = elim (parse_uint active) [
    | none ↦ err invalid_active_version
    | some version ↦ decode_spec B version (stored version)
  ]

module _ (Q : RateLimiting) (B : Backend) (K : Kube) where
  view-from :
      (s : B.etcd.Server) (m : Text)
      → view Q B K s m
        ≡ view_from B (B.etcd.get s (active_key m)) (λ v. B.etcd.get s (version_spec_key m v))
  unfolding view get_active_flow get_key ◌>>=◌
  view-from s m = ground arith

  -- Two servers that agree on the keys of a flow show the same flow.
  pub view-agree :
      (s t : B.etcd.Server) (m : Text)
      → B.etcd.get s (active_key m) ≡ B.etcd.get t (active_key m)
      → ((v : ℕ) → B.etcd.get s (version_spec_key m v) ≡ B.etcd.get t (version_spec_key m v))
      → view Q B K s m ≡ view Q B K t m
  view-agree s t m ha hv =
      view-from s m
      ∙ ap (λ a. view_from B a (λ v. B.etcd.get s (version_spec_key m v))) ha
      ∙ ap (view_from B (B.etcd.get t (active_key m))) (fun_ext hv)
      ∙ sym (view-from t m)

  -- A read leaves every flow as it is shown.
  pub view-read :
      (w : World B.etcd.Server) (k m : Text)
      → view Q B K (get_active_flow B k w).1.server m ≡ view Q B K w.server m
  view-read w k m = ap (λ s. view Q B K s m) ((get_active_flow-Reads B k).keeps w)

  -- A read that succeeds returns what the flow is shown as.
  pub read-view :
      (w : World B.etcd.Server) (k : Text) (found : Option FlowSpec × ℕ)
      → (get_active_flow B k w).0 ≡ ok found
      → view Q B K w.server k ≡ ok found
  unfolding view
  read-view w k found e = (get_active_flow-Reads B k).agrees w found e

  -- The rest of a reconciliation leaves every flow as it is shown.
  pub view-act :
      (R : Rendering) (config : ControllerConfig) (now : ℕ) (k m : Text) (found : Found)
      (w : Systems B K)
      → IsPlain k
      → IsPlain m
      → view Q B K (act B K R config now k found w).1.store.server m ≡ view Q B K w.store.server m
  view-act R config now k m found w pk pm =
      let kept = λ (j : Text) (d : text_eq (status_key k) j ≡ false).
        act-keeps B K R config now k (KeyHolds B j (B.etcd.get w.store.server j))
          (λ st. update_status-KeyHolds B k st j _ d) found w refl in
      view-agree _ _ m (kept (active_key m) (status-eq-active pk pm))
        (λ v. kept (version_spec_key m v) (status-eq-version pk pm v))
