-- ===== src/Controller/System/Progress/Reached.antt =====
-- What holds of every state that the controller's system reaches.
use flow_pipe.Prelude.{
  ℕ, ◌≡◌, refl, ap, sym, subst, ◌∙◌, All, false, none, some, Option-cases, inl, inr, [], arith,
}
use flow_pipe.Text.{Text}
use flow_pipe.Text.FilePath.Laws.{IsPlain}
use flow_pipe.Remote.{ok, err}
use flow_pipe.Backend.{Backend, StoreError}
use flow_pipe.Controller.Kube.{Kube}
use flow_pipe.Controller.RateLimiting.{RateLimiting}
use flow_pipe.Controller.Queue.{MemoryQueue, get}
use flow_pipe.Controller.Runtime.{Rendering}
use flow_pipe.Controller.Reconcile.{ControllerConfig, Found, Systems, Ended, act}
use flow_pipe.Controller.System.{
  State, view, conclude, Step, write, write_unseen, watch, watch_opened, watch_ended, begin, finish,
  Reach, here, next,
}
use flow_pipe.Controller.System.Views.{view-act}
use flow_pipe.Controller.System.Progress.{
  Accounted, overlooked, announced, waiting, fresh, failed, settled, IsLive,
}
use flow_pipe.Controller.System.Events.{hear-Hears}
use flow_pipe.Controller.System.Progress.Steps.{write-IsLive, unseen-IsLive, opened-IsLive}
use flow_pipe.Controller.System.Progress.Attends.{Attends, Reach-missed}
use flow_pipe.Controller.System.Progress.Watching.{ended-IsLive, deliver-IsLive}
use flow_pipe.Controller.System.Progress.Workers.{get-inv, start-IsLive}
use flow_pipe.Controller.System.Progress.Finish.{succeeded-IsLive, retried-IsLive}

module _ (Q : RateLimiting) (B : Backend) (K : Kube) (R : Rendering)
    (config : ControllerConfig) where
  -- A reconciliation whose read has failed fails.
  act-err :
      (now : ℕ) (k : Text) (x : StoreError) (w : Systems B K)
      → (act B K R config now k (err x) w).0 ≡ ok tt
      → ⊥
  unfolding act
  act-err now k x w h = ground arith

  finish-IsLive :
      (st : State Q B K) (now : ℕ) (k : Text) (found : Found)
      → st.in_work k ≡ some found
      → IsLive Q B K st
      → (ended : Ended B K) → act B K R config now k found st.systems ≡ ended
      → IsLive Q B K (conclude Q B K now k found ended st)
  finish-IsLive st now k found e l (ok done, systems) h =
      succeeded-IsLive Q B K st now k found e systems
        (λ m pm.
          ap (λ r. view Q B K r.1.store.server m) (sym h)
          ∙ view-act Q B K R config now k m found st.systems (l.plain_works k found e) pm)
        l (λ x bad. act-err now k x st.systems (rw bad at (ap (λ r. r.0) h)))
  finish-IsLive st now k found e l (err x, systems) h =
      retried-IsLive Q B K st now k found e systems
        (λ m pm.
          ap (λ r. view Q B K r.1.store.server m) (sym h)
          ∙ view-act Q B K R config now k m found st.systems (l.plain_works k found e) pm)
        l x

  Step-IsLive : {s t : State Q B K} → Step Q B K R config s t → IsLive Q B K s → IsLive Q B K t
  Step-IsLive {s} (write name server pn same on) l = write-IsLive Q B K s name server pn same l
  Step-IsLive {s} (write_unseen name server pn same off) l =
      unseen-IsLive Q B K s name server same l
  Step-IsLive {s} (watch now type name rest e) l =
      deliver-IsLive Q B K s l now name rest _ e
        (hear-Hears Q B K type name s.systems.store (subst (All IsPlain) e l.plain_events).0)
  Step-IsLive {s} (watch_opened off) l = opened-IsLive Q B K s l
  Step-IsLive {s} (watch_ended on) l = ended-IsLive Q B K s l
  Step-IsLive {s} (begin now k lag queue e) l =
      start-IsLive Q B K s k queue (get-inv Q B K now s.queue k lag queue e) l
  Step-IsLive {s} (finish now k found e) l = finish-IsLive s now k found e l _ refl

  -- All flows stay accounted for, those included that the watch has missed.
  pub Reach-IsLive :
      {s t : State Q B K} → IsLive Q B K s → Reach Q B K R config s t → IsLive Q B K t
  Reach-IsLive l here = l
  Reach-IsLive l (next r step) = Step-IsLive step (Reach-IsLive l r)

  -- Let all flows be accounted for in a state, let `m` be a flow with a plain name of which the watch
  -- has missed nothing there, and let the watch attend to `m` in the steps that follow: it is open
  -- when `m` is written, it can fetch `m` for the events of `m`, and it does not end before these.
  -- Then in the state that is reached, whatever the order of the writers, the watch and the workers,
  -- and whatever other calls of etcd and Kubernetes fail, the watch has missed no change of `m`, and
  -- `m` is announced in the watch stream, or waits in the queue, or is in the hands of a worker that
  -- has read its present state or will retry it, or the last successful reconciliation had read its
  -- present state.
  pub Reach-Accounted :
      (s t : State Q B K) (m : Text)
      → IsLive Q B K s
      → (r : Reach Q B K R config s t) → IsPlain m
      → s.missed m ≡ false
      → Attends Q B K m R config r
      → (t.missed m ≡ false) × Accounted Q B K t m
  Reach-Accounted s t m l r pm seen attends =
      (Reach-missed Q B K m R config r attends seen, (Reach-IsLive l r).accounted m pm)

  -- Once the watch stream is empty, no flow waits and no worker is busy, the last successful
  -- reconciliation of a flow with a plain name had read the flow's present state, if at first all
  -- flows were accounted for and the watch had missed nothing of this one, and since then it has
  -- attended to it: it was open when the flow was written, it could fetch the flow for its events,
  -- and it did not end before these.
  pub idle-settled :
      (s t : State Q B K)
      → IsLive Q B K s
      → (r : Reach Q B K R config s t) → t.events ≡ []
      → ((k : Text) → Q.waits t.queue.q k ≡ false)
      → ((k : Text) → t.in_work k ≡ none)
      → (m : Text) → IsPlain m
      → s.missed m ≡ false
      → Attends Q B K m R config r
      → t.settled m ≡ some (view Q B K t.systems.store.server m)
  idle-settled s t l r no_events no_waits no_work m pm seen attends =
      let known = Reach-Accounted s t m l r pm seen attends in decide known.0 known.1
    where
      decide :
          t.missed m ≡ false
          → Accounted Q B K t m
          → t.settled m ≡ some (view Q B K t.systems.store.server m)
      decide seen (overlooked h) = cc (h, seen)
      decide seen (announced h) = elim (rw no_events at h) [ ]
      decide seen (waiting h) = cc (no_waits m)
      decide seen (fresh h) = cc (no_work m)
      decide seen (failed e h) = cc (no_work m)
      decide seen (settled h i) = i

  -- A flow that Get hands to a worker is in no other worker's hands.
  pub begin-alone :
      (s t : State Q B K) (now : ℕ) (k : Text) (lag : ℕ) (queue : MemoryQueue Q)
      → IsLive Q B K s
      → Reach Q B K R config s t
      → get Q now t.queue ≡ some ((k, lag), queue)
      → t.in_work k ≡ none
  begin-alone s t now k lag queue l r e = elim (Option-cases (t.in_work k)) [
    | inl free ↦ free
    | inr (found, busy) ↦ cc (
      (Reach-IsLive l r).working k found busy,
      Q.get-idle t.queue.q k queue.q (get-inv Q B K now t.queue k lag queue e),
    )
  ]
