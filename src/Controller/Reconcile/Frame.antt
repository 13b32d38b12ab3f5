-- ===== src/Controller/Reconcile/Frame.antt =====
-- What a reconciliation leaves alone in etcd.
use flow_pipe.Prelude.{ℕ, ◌≡◌, refl, sym, ◌∙◌, false, Option, none, some}
use flow_pipe.Text.{Text, text_eq}
use flow_pipe.Text.FilePath.Laws.{IsPlain}
use flow_pipe.Proto.{FlowStatus}
use flow_pipe.Remote.{Result, ok, err, World}
use flow_pipe.Remote.Laws.{
  Keeps, Keeps-request, Keeps-bind, Keeps-lift, Keeps-pure, Keeps-raise, Keeps-result,
}
use flow_pipe.Backend.{Backend, StoreError, get_key, put_key}
use flow_pipe.Api.Keys.{status_key, active_key, version_spec_key}
use flow_pipe.Api.Keys.Distinct.{status-eq-active, status-eq-version}
use flow_pipe.Api.Flows.Consistency.{IsConsistent}
use flow_pipe.Controller.Kube.{Kube, RuntimeError}
use flow_pipe.Controller.Flows.{get_active_flow, follow_active, update_status}
use flow_pipe.Controller.Runtime.{Rendering}
use flow_pipe.Controller.Reconcile.{
  ControllerConfig, Found, Systems, from_store, from_deletion, report, act, reconcile,
}

module _ (B : Backend) where
  -- The key `j` holds `o`.
  abbrev pub KeyHolds : Text → Option Text → B.etcd.Server → Type 0
  KeyHolds j o s = B.etcd.get s j ≡ o

  module _ (P : B.etcd.Server → Type 0) where
    get_key-Keeps : (k : Text) → Keeps P (get_key B k)
    unfolding get_key
    get_key-Keeps k = Keeps-request _ _ (λ s h. h)

    follow_active-Keeps :
        (name : Text) (active : Option Text) → Keeps P (follow_active B name active)
    follow_active-Keeps name none = Keeps-pure _
    follow_active-Keeps name (some active) =
        Keeps-lift _ _ λ version _. Keeps-bind _ _ (get_key-Keeps _) (λ stored. Keeps-result _)

    pub get_active_flow-Keeps : (name : Text) → Keeps P (get_active_flow B name)
    unfolding get_active_flow
    get_active_flow-Keeps name = Keeps-bind _ _ (get_key-Keeps _) (follow_active-Keeps name)

  pub update_status-KeyHolds :
      (name : Text) (status : Option FlowStatus) (j : Text) (o : Option Text)
      → text_eq (status_key name) j ≡ false
      → Keeps (KeyHolds j o) (update_status B name status)
  unfolding update_status put_key
  update_status-KeyHolds name none j o d = Keeps-raise _
  update_status-KeyHolds name (some status) j o d =
      Keeps-lift _ _
        λ bytes _. Keeps-request _ _ λ s h. B.etcd.get-put (status_key name) bytes s j ∙ rw d h

module _ (B : Backend) (K : Kube) where
  from_store-server :
      (u : Result StoreError Unit × World B.etcd.Server) (cluster : World K.Cluster)
      → (from_store B K u cluster).1.store ≡ u.1
  from_store-server (ok done, store) cluster = refl
  from_store-server (err e, store) cluster = refl

  from_deletion-server :
      (store : World B.etcd.Server) (d : Result RuntimeError Unit × World K.Cluster)
      → (from_deletion B K store d).1.store ≡ store
  from_deletion-server store (ok done, cluster) = refl
  from_deletion-server store (err e, cluster) = refl

  module _ (R : Rendering) (config : ControllerConfig) (now : ℕ) (name : Text) where
    -- What UpdateStatus keeps, the whole reconciliation keeps.
    module _ (P : B.etcd.Server → Type 0)
        (h : (st : Option FlowStatus) → Keeps P (update_status B name st)) where
      report-keeps :
          (version : ℕ) (store : World B.etcd.Server)
          (made : Result RuntimeError Text × World K.Cluster)
          → P store.server
          → P (report B K R config now name version store made).1.store.server
      report-keeps version store (ok workload, cluster) p =
          rw (from_store-server (update_status B name _ store) cluster) ((h _).after store p)
      report-keeps version store (err e, cluster) p = p

      pub act-keeps :
          (found : Found) (w : Systems B K)
          → P w.store.server
          → P (act B K R config now name found w).1.store.server
      unfolding act
      act-keeps (err e) w p = p
      act-keeps (ok (none, version)) w p = rw (from_deletion-server w.store _) p
      act-keeps (ok (some spec, version)) w p = report-keeps version w.store _ p

      reconcile-keeps :
          (w : Systems B K)
          → P w.store.server
          → P (reconcile B K R config now name w).1.store.server
      unfolding reconcile
      reconcile-keeps w p = act-keeps _ _ ((get_active_flow-Keeps B P name).after w.store p)

    -- A reconciliation of a flow changes no key in etcd but the flow's status key, whatever befalls its
    -- calls of etcd and of Kubernetes.
    reconcile_leaves :
        (w : Systems B K) (j : Text)
        → text_eq (status_key name) j ≡ false
        → B.etcd.get (reconcile B K R config now name w).1.store.server j
          ≡ B.etcd.get w.store.server j
    reconcile_leaves w j d =
        reconcile-keeps (KeyHolds B j (B.etcd.get w.store.server j))
          (λ st. update_status-KeyHolds B name st j _ d) w refl

    put_status-AreConsistent :
        (bytes : Text) (s : B.etcd.Server)
        → IsPlain name
        → IsConsistent B s
        → IsConsistent B (B.etcd.put (status_key name) bytes s)
    put_status-AreConsistent bytes s pm c =
        let active = λ (n : Text) (pn : IsPlain n).
          B.etcd.get-put (status_key name) bytes s (active_key n)
          ∙ rw (status-eq-active pm pn) refl in
        let stored = λ (n : Text) (pn : IsPlain n) (v : ℕ).
          B.etcd.get-put (status_key name) bytes s (version_spec_key n v)
          ∙ rw (status-eq-version pm pn v) refl in
        record {
          stored = λ n v b pn bv e. c.stored n v b pn bv (sym (stored n pn v) ∙ e);
          pointed = λ n a pn e.
              let p = c.pointed n a pn (sym (active n pn) ∙ e) in
              record {
                version = p.version;
                bound = p.bound;
                parses = p.parses;
                bytes = p.bytes;
                is_stored = stored n pn p.version ∙ p.is_stored;
              };
        }

    update_status-IsConsistent :
        (status : Option FlowStatus)
        → IsPlain name
        → Keeps (IsConsistent B) (update_status B name status)
    unfolding update_status put_key
    update_status-IsConsistent none pm = Keeps-raise _
    update_status-IsConsistent (some status) pm =
        Keeps-lift _ _ λ bytes _. Keeps-request _ _ λ s c. put_status-AreConsistent bytes s pm c

    -- A reconciliation of a flow with a plain name keeps the flows in etcd consistent, as the API
    -- server needs them, whatever befalls its calls.
    pub reconcile-IsConsistent :
        (w : Systems B K)
        → IsPlain name
        → IsConsistent B w.store.server
        → IsConsistent B (reconcile B K R config now name w).1.store.server
    reconcile-IsConsistent w pm c =
        reconcile-keeps (IsConsistent B) (λ st. update_status-IsConsistent st pm) w c
