-- ===== src/Controller/Leading/Tests.antt =====
-- The life of a process on concrete systems: a lease is lost, a flow changes, the lease is won again.
use flow_pipe.Text.FilePath.Plain.{jobs, jobs-IsPlain}
use flow_pipe.Controller.Concrete.{rendering, config, no_times}
use flow_pipe.Prelude.{
  ◌≤◌, ◌≡◌, refl, subst, true, false, none, some, [], ◌∷◌, length, arith, if◌then◌else◌,
}
use flow_pipe.Text.{text_eq}
use flow_pipe.Remote.{quiet}
use flow_pipe.Etcd.Table.{table}
use flow_pipe.Etcd.Table.Codecs.{spec_codec, status_codec}
use flow_pipe.Etcd.Table.Schemas.{schema_codec}
use flow_pipe.Backend.{Backend}
use flow_pipe.Controller.Shelves.{shelves, empty}
use flow_pipe.Controller.RateLimiting.Instance.{items, no_items, take, first_idle, without_item}
use flow_pipe.Controller.Queue.{MemoryQueue, add, get, shutdown}
use flow_pipe.Controller.Flows.{event_delete}
use flow_pipe.Controller.System.Events.{hear-deleted}
use flow_pipe.Controller.System.{State, Step, start, deliver, watch, begin}
use flow_pipe.Controller.Leading.{
  standby, leading, Process, run, stop, elected, work, Life, now_here, then_move,
}
use flow_pipe.Controller.Leading.Abandoned.{lost_lease_abandons}
use flow_pipe.Controller.Leading.Rounds.{begins, shutdown_bounds_begins}

abbrev backend : Backend
backend = record {
  etcd = table;
  specs = spec_codec;
  statuses = status_codec;
  schemas = schema_codec;
}

-- A leader whose flows are all settled; a change of "jobs" is announced.
abbrev settled_state : State items backend shelves
settled_state = record {
  queue = record { q = no_items; enqueued = no_times };
  watching = true;
  events = jobs ∷ [];
  missed = λ k. false;
  systems = record { store = quiet []; cluster = quiet empty };
  in_work = λ k. none;
  settled = λ k. none;
}

abbrev stopped : State items backend shelves
stopped = stop items backend shelves settled_state

abbrev LivesOn : Process items backend shelves → Process items backend shelves → Type 0
LivesOn = Life items backend shelves rendering config

-- The change is delivered, and the process leads again.
abbrev delivered : State items backend shelves
delivered = record stopped { queue = add items 1 jobs stopped.queue; events = [] }

leads_again :
    LivesOn (record { phase = standby; state = stopped }) (run items backend shelves 5 delivered)
leads_again =
    then_move
      (then_move now_here (
        work (
          subst
            (λ r.
              Step items backend shelves rendering config stopped
                (deliver items backend shelves 1 jobs [] r stopped))
            (hear-deleted items backend shelves jobs (quiet []) jobs-IsPlain)
            (watch 1 event_delete jobs [] refl))))
      (elected 5 refl)

lost_lease_abandons_example :
    let after = run items backend shelves 5 delivered in
    (items.waits after.state.queue.q jobs ≡ false)
    × (after.state.in_work jobs ≡ none)
    × (after.state.settled jobs ≡ none)
lost_lease_abandons_example =
    lost_lease_abandons items backend shelves rendering config
      (record { phase = leading; state = settled_state }) (run items backend shelves 5 delivered)
      jobs refl refl refl leads_again

-- The lease is lost while "jobs" waits; a worker takes it.
abbrev waiting_queue : MemoryQueue items
waiting_queue = record {
  q = record { dirty = jobs ∷ []; processing = []; opened = true };
  enqueued = no_times;
}

abbrev waiting_state : State items backend shelves
waiting_state = record settled_state { queue = waiting_queue }

abbrev shut_state : State items backend shelves
shut_state = stop items backend shelves waiting_state

abbrev drained_queue : MemoryQueue items
drained_queue = record {
  q = record { dirty = []; processing = jobs ∷ []; opened = false };
  enqueued = λ j. if text_eq jobs j then none else none;
}

get-shut : get items 2 shut_state.queue ≡ some ((jobs, 0), drained_queue)
unfolding get shutdown take first_idle without_item text_eq
get-shut = refl

one_round :
    LivesOn
      (record { phase = standby; state = shut_state })
      (record {
        phase = standby;
        state = start items backend shelves jobs drained_queue shut_state;
      })
one_round = then_move now_here (work (begin 2 jobs 0 drained_queue get-shut))

shutdown_bounds_begins_example :
    begins items backend shelves rendering config one_round ≤ length (jobs ∷ [])
shutdown_bounds_begins_example =
    shutdown_bounds_begins items backend shelves rendering config (jobs ∷ [])
      (record { phase = leading; state = waiting_state })
      (record {
        phase = standby;
        state = start items backend shelves jobs drained_queue shut_state;
      })
      refl (λ k w. ground (arith, w)) one_round
