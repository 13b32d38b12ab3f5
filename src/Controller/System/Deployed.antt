-- ===== src/Controller/System/Deployed.antt =====
-- From a write to the workload: an update that reaches an idle controller is deployed.
mod Tests
use flow_pipe.Prelude.{
  ℕ, ◌≡◌, ◌≢◌, refl, sym, ap, subst, ◌∙◌, true, false, Option, none, some, [], ◌∷◌, if◌then◌else◌,
}
use flow_pipe.Text.{Text, codes, text_eq, text_eq_refl}
use flow_pipe.Text.FilePath.Laws.{IsPlain}
use flow_pipe.Proto.{FlowState, FlowSpec, Flow}
use flow_pipe.Remote.{ok, quiet}
use flow_pipe.Backend.{Backend}
use flow_pipe.Api.Flows.{update_flow, get_flow_status}
use flow_pipe.Api.Flows.Created.{Wrote, create_new_version-Wrote}
use flow_pipe.Controller.Kube.{Kube, job}
use flow_pipe.Controller.RateLimiting.{RateLimiting}
use flow_pipe.Controller.Queue.{MemoryQueue, add, get, taken}
use flow_pipe.Controller.Flows.{get_active_flow, bare_flow, event_put, watch_added}
use flow_pipe.Controller.Flows.Watch.{build_watch_event-update_flow}
use flow_pipe.Controller.Flows.Shared.{get_active_flow-update_flow}
use flow_pipe.Controller.Runtime.{Rendering}
use flow_pipe.Controller.Runtime.Template.{pull_policy_from_spec}
use flow_pipe.Controller.Runtime.Frame.{workload_kind, workload_name}
use flow_pipe.Controller.Runtime.Installed.{Installed}
use flow_pipe.Controller.Runtime.Ready.{IsReady}
use flow_pipe.Controller.Reconcile.{
  ControllerConfig, Found, Systems, deploying_status, act, reconcile,
}
use flow_pipe.Controller.Reconcile.Report.{get_flow_status-reconcile}
use flow_pipe.Controller.Reconcile.Installs.{reconcile-installs}
use flow_pipe.Controller.Reconcile.Ends.{act-ends}
use flow_pipe.Controller.System.{
  State, Step, hear, deliver, view, deliver, start, conclude, write, watch, begin, finish, Reach,
  here, next,
}
use flow_pipe.Controller.System.Progress.Steps.{written}
use flow_pipe.Controller.System.Views.{view-act}
use flow_pipe.Controller.System.Writers.{view-update_flow}

-- The spec that UpdateFlow stores for a request.
abbrev pub stamped : Text → ℕ → FlowSpec → FlowSpec
stamped name version spec = record spec { name = name; version = version }

module _ (Q : RateLimiting) (B : Backend) (K : Kube) where
  -- An open queue and a stream with nothing in them, workers at rest, and networks that fail no more.
  abbrev pub idle_state :
      MemoryQueue Q → B.etcd.Server → K.Cluster → (Text → Option Found) → State Q B K
  idle_state queue s c settled = record {
    queue = queue;
    watching = true;
    events = [];
    missed = λ k. false;
    systems = record { store = quiet s; cluster = quiet c };
    in_work = λ k. none;
    settled = settled;
  }

  module _ (R : Rendering) (config : ControllerConfig) where
    -- The controller has acted upon this version of the flow.
    pub record Deployed (name : Text) (version : ℕ) (spec : FlowSpec) (now : ℕ) (t : State Q B K)
        : Type 0 where
      pub heard : t.events ≡ []
      pub shown : view Q B K t.systems.store.server name ≡ ok (some spec, version)
      pub settled : t.settled name ≡ some (ok (some spec, version))
      pub reported : get_flow_status B name t.systems.store ≡ (
        ok (
            some (record {
              state = FlowState.deploying;
              message = codes "flow runtime created";
              active_version = version;
              workload = workload_name spec;
              last_updated = now;
            })),
        t.systems.store,
      )
      pub installed :
          Installed K R config.runtime_namespace spec
            (pull_policy_from_spec (some spec))
            config.observability_enabled
            config.otel_endpoint
            t.systems.cluster.server

    -- A round of the controller on one flow that was written.
    module _ (now : ℕ) (name : Text) (plain : IsPlain name) (queue : MemoryQueue Q)
        (opened : Q.is_open queue.q ≡ true) (idle : Q.works queue.q name ≡ false)
        (nothing : (j : Text) → Q.waits queue.q j ≡ false) (s s' : B.etcd.Server) (c : K.Cluster)
        (settled : Text → Option Found)
        (elsewhere : (m : Text)
          → IsPlain m
          → text_eq name m ≡ false
          → view Q B K s' m ≡ view Q B K s m) where
      abbrev begun : MemoryQueue Q → State Q B K
      begun taken_queue =
          start Q B K name taken_queue
            (record (idle_state queue s' c settled) { queue = add Q now name queue })

      get-added :
          (m : MemoryQueue Q) × (lag : ℕ) × (get Q now (add Q now name queue)
            ≡ some ((name, lag), m))
      unfolding add get
      get-added =
          let found = Q.get-add name queue.q opened idle nothing in
          (_, _, ap (taken Q now (add Q now name queue)) found.1)

      -- The watch fetches the flow, and does not drop its event.
      module _ (fetched : Option FlowSpec)
          (heard : hear Q B K (event_put true) name (quiet s') ≡ (
            ok (some (record { type = watch_added; flow = bare_flow name fetched })),
            quiet s',
          )) where
        Reach-begun :
            (m : MemoryQueue Q) × Reach Q B K R config
              (written Q B K name s' (idle_state queue s c settled))
              (begun m)
        Reach-begun =
            let got = get-added in
            let st = written Q B K name s' (idle_state queue s c settled) in
            let watched =
              subst (λ r. Step Q B K R config st (deliver Q B K now name [] r st)) heard
                (watch now (event_put true) name [] refl) in
            (got.0, next (next here watched) (begin now name got.1 got.0 got.2))

      -- The reconciliation that follows, where it ends without an error.
      module _ (f : Flow) (stored : FlowSpec)
          (read : get_active_flow B name (quiet s') ≡ (ok (some stored, f.version), quiet s'))
          (no_job : workload_kind stored ≢ job) (w : Systems B K)
          (ended : act B K R config now name
              (ok (some stored, f.version))
              (record { store = quiet s'; cluster = quiet c })
            ≡ (ok tt, w)) where
        reconciled :
            reconcile B K R config now name (record { store = quiet s'; cluster = quiet c })
            ≡ (ok tt, w)
        unfolding reconcile
        reconciled = rw read ended

        concluded-Deployed :
            (m : MemoryQueue Q)
            → Deployed name f.version stored now
                (conclude Q B K now name (ok (some stored, f.version)) (ok tt, w) (begun m))
        unfolding view
        concluded-Deployed m = record {
          heard = refl;
          shown =
              ap (λ r. view Q B K r.1.store.server name) (sym ended)
              ∙ view-act Q B K R config now name name _
                  (record { store = quiet s'; cluster = quiet c }) plain plain
              ∙ ap (λ r. r.0) read;
          settled = rw (text_eq_refl name) refl;
          reported =
              get_flow_status-reconcile B K R config now name stored f.version s' (quiet c) w read
                reconciled;
          installed =
              reconcile-installs B K R config now name stored f.version (quiet s') (quiet s')
                (quiet c) w no_job read reconciled;
        }

        finished :
            (m : MemoryQueue Q)
            → Step Q B K R config
                (begun m)
                (conclude Q B K now name (ok (some stored, f.version)) (ok tt, w) (begun m))
        finished m =
            let found : Found = ok (some stored, f.version) in
            subst (λ e. Step Q B K R config (begun m) (conclude Q B K now name found e (begun m)))
              (ap (λ r. act B K R config now name found (record { store = r.1; cluster = quiet c }))
                  read
                ∙ ended)
              (finish now name found (rw (text_eq_refl name) (ap (λ r. some r.0) read)))

        Reach-Deployed :
            (fetched : Option FlowSpec)
            → hear Q B K (event_put true) name (quiet s')
              ≡ (ok (some (record { type = watch_added; flow = bare_flow name fetched })), quiet s')
            → (t : State Q B K) × Step Q B K R config
                (idle_state queue s c settled)
                (written Q B K name s' (idle_state queue s c settled))
              × Reach Q B K R config (written Q B K name s' (idle_state queue s c settled)) t
              × Deployed name f.version stored now t
        Reach-Deployed fetched heard =
            let started = Reach-begun fetched heard in
            (
              _,
              write name s' plain elsewhere refl,
              next started.1 (finished started.0),
              concluded-Deployed started.0,
            )

  -- If the controller has a Kubernetes client and is idle (its watch is open, its queue is open and empty,
  -- no worker has the flow, no event is under way) and no call fails any more, and UpdateFlow of the API server then
  -- succeeds on a plain flow name with a spec that does not ask for a plain job, and what is stored
  -- has a name and an image and renders, and its status report encodes, then that write is a step of
  -- the system, and steps lead from there to a state where the event has been handled, the flow is
  -- shown with the stored spec and version, which the last successful reconciliation of it had read,
  -- GetFlowStatus returns "deploying" with that version, the time and the workload's name, and the
  -- cluster has the config map and the workload that the stored spec asks for.
  pub update_flow-Deployed :
      (R : Rendering) (config : ControllerConfig) (now : ℕ) (name : Text) (spec : FlowSpec)
      (queue : MemoryQueue Q) (s s' : B.etcd.Server) (c : K.Cluster) (settled : Text → Option Found)
      (f : Flow) (bytes : Text)
      → IsPlain name
      → Q.is_open queue.q ≡ true
      → Q.works queue.q name ≡ false
      → ((j : Text) → Q.waits queue.q j ≡ false)
      → config.has_client ≡ true
      → update_flow B name (some spec) (quiet s) ≡ (ok f, quiet s')
      → workload_kind (stamped name f.version spec) ≢ job
      → IsReady R (stamped name f.version spec)
      → B.statuses.marshal
          (deploying_status f.version (workload_name (stamped name f.version spec)) now)
        ≡ some bytes
      → (t : State Q B K) × Step Q B K R config
          (idle_state queue s c settled)
          (written Q B K name s' (idle_state queue s c settled))
        × Reach Q B K R config (written Q B K name s' (idle_state queue s c settled)) t
        × Deployed R config name f.version (stamped name f.version spec) now t
  unfolding update_flow
  update_flow-Deployed R config now name spec queue s s' c settled f bytes plain opened idle nothing
        client updated no_job ready encodes =
      let wrote = create_new_version-Wrote B name (record spec { name = name }) s updated in
      let stored : FlowSpec = stamped name f.version spec in
      let is_stored : f.spec ≡ some stored = rw (wrote.result) refl in
      let read : get_active_flow B name (quiet s') ≡ (ok (some stored, f.version), quiet s') =
        rw is_stored at (get_active_flow-update_flow B name spec s f (quiet s') plain updated) in
      let ended = act-ends B K R config now name stored f.version bytes client ready encodes s' c in
      Reach-Deployed R config now name plain queue opened idle nothing s s' c settled
        (λ m pm d.
          ap (λ r. view Q B K r.1.server m) (sym updated)
          ∙ view-update_flow Q B K name m (some spec) (quiet s) plain pm d)
        f stored read no_job ended.0 ended.1 f.spec
        (build_watch_event-update_flow B name spec s f (quiet s') true plain updated)
