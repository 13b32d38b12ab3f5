-- ===== src/Controller/Leading/Abandoned.antt =====
-- A controller that leads again: its queue was shut down at the end of the term before.
use flow_pipe.Prelude.{◌≡◌, refl, ◌∙◌, false, List, Option, none, some, inl, inr, Bool-cases, ℕ}
use flow_pipe.Text.{Text, text_eq, text_eq→eq}
use flow_pipe.Remote.{Result, ok, err, World}
use flow_pipe.Backend.{Backend, StoreError}
use flow_pipe.Controller.Kube.{Kube}
use flow_pipe.Controller.RateLimiting.{RateLimiting}
use flow_pipe.Controller.Queue.{MemoryQueue}
use flow_pipe.Controller.Runtime.{Rendering}
use flow_pipe.Controller.Reconcile.{ControllerConfig, Found, Ended, act}
use flow_pipe.Controller.Flows.{WatchEvent}
use flow_pipe.Controller.Seed.{enqueue_existing}
use flow_pipe.Controller.System.{
  State, deliver, conclude, Step, write, write_unseen, watch, watch_opened, watch_ended, begin,
  finish,
}
use flow_pipe.Controller.System.Progress.Workers.{get-inv}
use flow_pipe.Controller.Leading.{
  standby, leading, Process, seeded, stop, Move, elected, lost, cancelled, left, work, Life,
  now_here, then_move,
}
use flow_pipe.Controller.Leading.Closed.{not_waiting, shutdown-Shrinks, Move-Shrinks}

module _ (Q : RateLimiting) (B : Backend) (K : Kube) where
  module _ (R : Rendering) (config : ControllerConfig) where
    -- The flow `k` is out of the queue and of every worker's hands; `c` is what the last successful
    -- reconciliation of it had read.
    pub record Abandoned (k : Text) (c : Option Found) (st : State Q B K) : Type 0 where
      pub closed : Q.is_open st.queue.q ≡ false
      pub out : Q.waits st.queue.q k ≡ false
      pub idle : st.in_work k ≡ none
      pub unchanged : st.settled k ≡ c

    begin-elsewhere :
        {k j : Text} {c : Option Found} (st : State Q B K) {r : Q.Queue}
        → Abandoned k c st
        → Q.get st.queue.q ≡ some (j, r)
        → text_eq j k ≡ false
    begin-elsewhere {k} {j} st a e = elim (Bool-cases (text_eq j k)) [
      | inl same ↦ cc (text_eq→eq j k same, Q.get-waits st.queue.q j _ e, a.out)
      | inr differ ↦ differ
    ]

    finish-elsewhere :
        {k j : Text} {c : Option Found} {found : Found} (st : State Q B K)
        → Abandoned k c st
        → st.in_work j ≡ some found
        → text_eq j k ≡ false
    finish-elsewhere {k} {j} st a e = elim (Bool-cases (text_eq j k)) [
      | inl same ↦ cc (text_eq→eq j k same, e, a.idle)
      | inr differ ↦ differ
    ]

    conclude-idle :
        (now : ℕ) (j k : Text) (found : Found) (ended : Ended B K) (st : State Q B K)
        → text_eq j k ≡ false
        → ((conclude Q B K now j found ended st).in_work k ≡ st.in_work k)
          × ((conclude Q B K now j found ended st).settled k ≡ st.settled k)
    conclude-idle now j k found (ok done, systems) st h = (rw h, rw h)
    conclude-idle now j k found (err e, systems) st h = (rw h, refl)

    deliver-idle :
        (now : ℕ) (name k : Text) (rest : List Text)
        (r : Result StoreError (Option WatchEvent) × World B.etcd.Server) (st : State Q B K)
        → ((deliver Q B K now name rest r st).in_work k ≡ st.in_work k)
          × ((deliver Q B K now name rest r st).settled k ≡ st.settled k)
    deliver-idle now name k rest (ok (some ev), w) st = (refl, refl)
    deliver-idle now name k rest (ok none, w) st = (refl, refl)
    deliver-idle now name k rest (err e, w) st = (refl, refl)

    step-idle :
        {s t : State Q B K} {k : Text} {c : Option Found}
        → Step Q B K R config s t
        → Abandoned k c s
        → (t.in_work k ≡ s.in_work k) × (t.settled k ≡ s.settled k)
    step-idle (write name server pn same on) a = (refl, refl)
    step-idle (write_unseen name server pn same off) a = (refl, refl)
    step-idle {s} {t} {k} (watch now type name rest e) a = deliver-idle now name k rest _ s
    step-idle (watch_opened off) a = (refl, refl)
    step-idle (watch_ended on) a = (refl, refl)
    step-idle {s} (begin now j lag queue e) a =
        (rw (begin-elsewhere s a (get-inv Q B K now s.queue j lag queue e)), refl)
    step-idle {s} {t} {k} (finish now j found e) a =
        conclude-idle now j k found (act B K R config now j found s.systems) s
          (finish-elsewhere s a e)

    run-idle :
        (st : State Q B K) (out : (Result StoreError Unit × World B.etcd.Server) × MemoryQueue Q)
        (k : Text)
        → ((seeded Q B K out st).state.in_work k ≡ st.in_work k)
          × ((seeded Q B K out st).state.settled k ≡ st.settled k)
    run-idle st ((ok done, w), m) k = (refl, refl)
    run-idle st ((err e, w), m) k = (refl, refl)

    Move-idle :
        {p r : Process Q B K} {k : Text} {c : Option Found}
        → Move Q B K R config p r
        → Abandoned k c p.state
        → (r.state.in_work k ≡ p.state.in_work k) × (r.state.settled k ≡ p.state.settled k)
    Move-idle {p} {r} {k} (elected now e) a =
        run-idle p.state (enqueue_existing Q B now p.state.systems.store p.state.queue) k
    Move-idle (lost e) a = (refl, refl)
    Move-idle (cancelled e) a = (refl, refl)
    Move-idle (left e) a = (refl, refl)
    Move-idle (work step) a = step-idle step a

    Move-Abandoned :
        {p r : Process Q B K} {k : Text} {c : Option Found}
        → Move Q B K R config p r
        → Abandoned k c p.state
        → Abandoned k c r.state
    Move-Abandoned {p} {r} {k} m a =
        let s = Move-Shrinks Q B K R config m a.closed in
        let i = Move-idle m a in
        record {
          closed = s.closed;
          out = not_waiting Q k s a.out;
          idle = i.0 ∙ a.idle;
          unchanged = i.1 ∙ a.unchanged;
        }

    pub Life-Abandoned :
        {p r : Process Q B K} {k : Text} {c : Option Found}
        → Life Q B K R config p r
        → Abandoned k c p.state
        → Abandoned k c r.state
    Life-Abandoned now_here a = a
    Life-Abandoned (then_move l m) a = Move-Abandoned m (Life-Abandoned l a)

    -- When the controller loses its lease while a flow neither waits in the queue nor is in the hands of
    -- a worker, the flow is never reconciled again in the life of the process: however often it leads
    -- again, and whatever is written to the flow, in every later state the flow does not wait, no worker
    -- has it, and the last successful reconciliation of it is the one from before the loss.
    pub lost_lease_abandons :
        (p r : Process Q B K) (k : Text)
        → p.phase ≡ leading
        → Q.waits p.state.queue.q k ≡ false
        → p.state.in_work k ≡ none
        → Life Q B K R config (record { phase = standby; state = stop Q B K p.state }) r
        → (Q.waits r.state.queue.q k ≡ false)
          × (r.state.in_work k ≡ none)
          × (r.state.settled k ≡ p.state.settled k)
    lost_lease_abandons p r k led out idle life =
        let s = shutdown-Shrinks Q p.state.queue in
        let a = Life-Abandoned life (record {
          closed = s.closed;
          out = not_waiting Q k s out;
          idle = idle;
          unchanged = refl;
        }) in
        (a.out, a.idle, a.unchanged)
