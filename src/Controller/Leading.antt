-- ===== src/Controller/Leading.antt =====
-- The life of the controller's process: Run of controller/internal/controller/controller.go, and
-- runWithLeaderElection of controller/cmd/flow-controller/main.go, which calls Run in each term as a
-- leader, on one queue. client-go's elector calls back when a term starts and when it ends; a term's
-- end cancels the context of its Run. The end of a term and the shutdown of the queue behind it are one
-- move here, while in the source Run shuts the queue down a little later. The steps of the writers, the watch loop and the workers
-- may come at any time.
pub mod Closed
pub mod Abandoned
pub mod Rounds
mod Tests
use flow_pipe.Prelude.{ℕ, ◌≡◌}
use flow_pipe.Remote.{Result, ok, err, World}
use flow_pipe.Backend.{Backend, StoreError}
use flow_pipe.Controller.Kube.{Kube}
use flow_pipe.Controller.RateLimiting.{RateLimiting}
use flow_pipe.Controller.Queue.{MemoryQueue, shutdown}
use flow_pipe.Controller.Runtime.{Rendering}
use flow_pipe.Controller.Reconcile.{ControllerConfig}
use flow_pipe.Controller.Seed.{enqueue_existing}
use flow_pipe.Controller.System.{State, Step}

-- Outside a term; in Run, past the start; returned without and with an error.
pub data Phase : Type 0 where
  standby leading returned failed : Phase

module _ (Q : RateLimiting) (B : Backend) (K : Kube) where
  pub record Process : Type 0 where
    pub phase : Phase
    pub state : State Q B K

  -- The queue and etcd after enqueueExisting; where that fails, Run returns its error at once.
  abbrev pub seeded :
      (Result StoreError Unit × World B.etcd.Server) × MemoryQueue Q → State Q B K → Process
  seeded ((ok done, store), queue) st = record {
    phase = leading;
    state = record st { queue = queue; systems = record st.systems { store = store } };
  }
  seeded ((err e, store), queue) st = record {
    phase = failed;
    state = record st { queue = queue; systems = record st.systems { store = store } };
  }

  -- Run up to its start of the watch loop and the workers.
  abbrev pub run : ℕ → State Q B K → Process
  run now st = seeded (enqueue_existing Q B now st.systems.store st.queue) st

  -- Run behind ctx.Done().
  abbrev pub stop : State Q B K → State Q B K
  stop st = record st { queue = shutdown Q st.queue }

  module _ (R : Rendering) (config : ControllerConfig) where
    -- OnStartedLeading; the loss of the lease; the end of the process, inside and outside a term; and a
    -- step of the system.
    pub data Move (p : Process) : Process → Type 0 where
      elected : (now : ℕ) → p.phase ≡ standby → Move p (run now p.state)
      lost : p.phase ≡ leading → Move p (record { phase = standby; state = stop p.state })
      cancelled : p.phase ≡ leading → Move p (record { phase = returned; state = stop p.state })
      left : p.phase ≡ standby → Move p (record p { phase = returned })
      work : {t : State Q B K} → Step Q B K R config p.state t → Move p (record p { state = t })

    pub data Life (p : Process) : Process → Type 0 where
      now_here : Life p p
      then_move : {q r : Process} → Life p q → Move q r → Life p r
