-- ===== src/Controller/System.antt =====
-- The controller at work: the watch loop (runWatch in controller/internal/controller/watch.go), the
-- workers (worker in reconcile.go) and the writers of flows, as steps of one system that may come in
-- any order. A worker's round is two steps: Get and the reconciliation's read, and the rest of the
-- reconciliation with Forget or Retry; other steps may come between. WatchFlows of
-- controller/internal/store/etcd.go takes etcd's events one at a time through build_watch_event, which
-- drops an event whose flow it cannot fetch; its channel, which only delays events, is left out.
pub mod Views
pub mod Events
pub mod Progress
pub mod Writers
pub mod Deployed
mod Tests
use flow_pipe.Prelude.{
  ℕ, ◌≡◌, Bool, true, false, Option, none, some, List, [], ◌∷◌, ◌++◌, if◌then◌else◌,
}
use flow_pipe.Text.{Text, text_eq}
use flow_pipe.Text.FilePath.Laws.{IsPlain}
use flow_pipe.Proto.{Flow}
use flow_pipe.Remote.{Result, ok, err, World, quiet}
use flow_pipe.Backend.{Backend, StoreError}
use flow_pipe.Api.Keys.{active_key}
use flow_pipe.Controller.Kube.{Kube}
use flow_pipe.Controller.RateLimiting.{RateLimiting}
use flow_pipe.Controller.Queue.{MemoryQueue, add, get, forget, retry}
use flow_pipe.Controller.Flows.{WatchEvent, EtcdEventType, get_active_flow, build_watch_event}
use flow_pipe.Controller.Runtime.{Rendering}
use flow_pipe.Controller.Reconcile.{ControllerConfig, Found, Systems, Ended, act}

module _ (Q : RateLimiting) (B : Backend) (K : Kube) where
  -- `events` are the names in the watch stream; `in_work` is what a worker has read for a flow that it
  -- reconciles; `watching` is whether the watch is open, which reports only what changes from then on.
  -- Two fields are for the statements only: `missed`, whether an event of a flow was lost, or never
  -- asked for, since a worker last read the flow; and `settled`, what the last successful
  -- reconciliation of a flow had read.
  pub record State : Type 0 where
    pub queue : MemoryQueue Q
    pub watching : Bool
    pub events : List Text
    pub missed : Text → Bool
    pub systems : Systems B K
    pub in_work : Text → Option Found
    pub settled : Text → Option Found

  -- What a read of the flow returns where no call fails.
  unfoldable pub view : B.etcd.Server → Text → Found
  view s name = (get_active_flow B name (quiet s)).0

  abbrev pub set_at : Text → Option Found → (Text → Option Found) → Text → Option Found
  set_at k v f j = if text_eq k j then v else f j

  abbrev pub mark : Text → Bool → (Text → Bool) → Text → Bool
  mark k v f j = if text_eq k j then v else f j

  abbrev pub mark_all : List Text → (Text → Bool) → Text → Bool
  mark_all [] f = f
  mark_all (k ∷ ks) f = mark_all ks (mark k true f)

  -- What WatchFlows makes of etcd's next event, and the body of runWatch's loop: the event of a flow is
  -- put into the queue, whatever its type, unless buildWatchEvent has dropped it.
  abbrev pub deliver :
      ℕ
      → Text
      → List Text
      → Result StoreError (Option WatchEvent) × World B.etcd.Server
      → State
      → State
  deliver now name rest (ok (some ev), store) st = record st {
    queue = add Q now ev.flow.name st.queue;
    events = rest;
    systems = record st.systems { store = store };
  }
  deliver now name rest (ok none, store) st = record st {
    events = rest;
    missed = mark name true st.missed;
    systems = record st.systems { store = store };
  }
  deliver now name rest (err e, store) st = record st {
    events = rest;
    missed = mark name true st.missed;
    systems = record st.systems { store = store };
  }

  -- etcd's event of a flow's active key, as buildWatchEvent takes it.
  abbrev pub hear :
      EtcdEventType
      → Text
      → World B.etcd.Server
      → Result StoreError (Option WatchEvent) × World B.etcd.Server
  hear type name =
      build_watch_event B (get_active_flow B) (some (record { type = type; key = active_key name }))

  -- The first half of a worker's round.
  abbrev pub start : Text → MemoryQueue Q → State → State
  start k queue st =
      let read = get_active_flow B k st.systems.store in
      record st {
        queue = queue;
        systems = record st.systems { store = read.1 };
        missed = mark k false st.missed;
        in_work = set_at k (some read.0) st.in_work;
      }

  -- The second half, after the reconciliation has ended.
  abbrev pub conclude : ℕ → Text → Found → Ended B K → State → State
  conclude now k found (ok done, systems) st = record st {
    queue = forget Q k st.queue;
    systems = systems;
    in_work = set_at k none st.in_work;
    settled = set_at k (some found) st.settled;
  }
  conclude now k found (err e, systems) st = record st {
    queue = retry Q now k st.queue;
    systems = systems;
    in_work = set_at k none st.in_work;
  }

  module _ (R : Rendering) (config : ControllerConfig) where
    -- A writer changes one flow, which etcd announces to a watch that is open; the next event is
    -- taken; a worker starts, and finishes; the watch opens, as it does once in a Run, after the
    -- listing of the flows; and the watch's stream ends, with which the events under way are lost.
    pub data Step (st : State) : State → Type 0 where
      write :
          (name : Text) (s : B.etcd.Server)
          → IsPlain name
          → ((m : Text)
              → IsPlain m
              → text_eq name m ≡ false
              → view s m ≡ view st.systems.store.server m)
          → st.watching ≡ true
          → Step st (record st {
            systems = record st.systems { store = record st.systems.store { server = s } };
            events = st.events ++ name ∷ [];
          })
      write_unseen :
          (name : Text) (s : B.etcd.Server)
          → IsPlain name
          → ((m : Text)
              → IsPlain m
              → text_eq name m ≡ false
              → view s m ≡ view st.systems.store.server m)
          → st.watching ≡ false
          → Step st (record st {
            systems = record st.systems { store = record st.systems.store { server = s } };
            missed = mark name true st.missed;
          })
      watch :
          (now : ℕ) (type : EtcdEventType) (name : Text) (rest : List Text)
          → st.events ≡ name ∷ rest
          → Step st (deliver now name rest (hear type name st.systems.store) st)
      watch_opened : st.watching ≡ false → Step st (record st { watching = true })
      watch_ended :
          st.watching ≡ true
          → Step st
              (record st { watching = false; events = []; missed = mark_all st.events st.missed })
      begin :
          (now : ℕ) (k : Text) (lag : ℕ) (queue : MemoryQueue Q)
          → get Q now st.queue ≡ some ((k, lag), queue)
          → Step st (start k queue st)
      finish :
          (now : ℕ) (k : Text) (found : Found)
          → st.in_work k ≡ some found
          → Step st (conclude now k found (act B K R config now k found st.systems) st)

    pub data Reach (st : State) : State → Type 0 where
      here : Reach st st
      next : {t u : State} → Reach st t → Step t u → Reach st u
