-- ===== src/Controller/System/Tests.antt =====
-- The controller at work on concrete systems: a flow was deleted while its job was still there.
use flow_pipe.Text.FilePath.Plain.{jobs, jobs-IsPlain}
use flow_pipe.Controller.Concrete.{rendering, config, empty_queue}
use flow_pipe.Prelude.{ap, inr, ◌≡◌, refl, true, false, none, some, [], ◌∷◌, arith, if◌then◌else◌}
use flow_pipe.Text.FilePath.{path_base, path_dir, path_join}
use flow_pipe.Text.{has_suffix, Text, text_eq}
use flow_pipe.Remote.{ok, pure, quiet, ◌>>=◌}
use flow_pipe.Etcd.Table.{table, find}
use flow_pipe.Etcd.Table.Codecs.{spec_codec, status_codec}
use flow_pipe.Api.Keys.{active_key, flow_prefix}
use flow_pipe.Backend.{Backend, get_key}
use flow_pipe.Controller.Kube.{delete_object}
use flow_pipe.Controller.Shelves.{shelves, empty}
use flow_pipe.Controller.RateLimiting.Instance.{
  items, no_items, push, take, first_idle, without_item,
}
use flow_pipe.Controller.Queue.{MemoryQueue, add, get, forget}
use flow_pipe.Controller.Flows.{
  WatchEvent, watch_deleted, bare_flow, build_watch_event, watched_name, get_active_flow,
}
use flow_pipe.Controller.Runtime.{delete_all, delete_runtime_resources}
use flow_pipe.Controller.Reconcile.{Found, act}
use flow_pipe.Controller.Flows.{
  WatchEvent, watch_deleted, bare_flow, build_watch_event, watched_name, event_delete,
}
use flow_pipe.Controller.System.Events.{hear-deleted}
use flow_pipe.Controller.System.{
  State, hear, view, start, conclude, watch, begin, finish, Reach, here, next,
}
use flow_pipe.Controller.System.Progress.{settled, IsLive, Accounted}
use flow_pipe.Controller.System.Progress.Attends.{Attends}
use flow_pipe.Controller.System.Progress.Reached.{Reach-Accounted, idle-settled, begin-alone}
use flow_pipe.Etcd.Table.Schemas.{schema_codec}

abbrev backend : Backend
backend = record {
  etcd = table;
  specs = spec_codec;
  statuses = status_codec;
  schemas = schema_codec;
}

abbrev Running : Type 0
Running = State items backend shelves

-- No flow is stored; the deletion of "jobs" is announced.
abbrev announced_state : Running
announced_state = record {
  queue = empty_queue;
  watching = true;
  events = jobs ∷ [];
  missed = λ k. false;
  systems = record { store = quiet []; cluster = quiet empty };
  in_work = λ k. none;
  settled = λ k. some (view items backend shelves [] k);
}

announced_state-IsLive : IsLive items backend shelves announced_state
announced_state-IsLive = record {
  opened = refl;
  working = λ k f e. cc;
  plain_events = (jobs-IsPlain, tt);
  plain_waits = λ k e. cc;
  plain_works = λ k f e. cc;
  accounted = λ m pm. settled refl refl;
}

abbrev Leads : Running → Running → Type 0
Leads = Reach items backend shelves rendering config

abbrev queued_state : Running
queued_state = record announced_state { queue = add items 1 jobs empty_queue; events = [] }

deleted_event : WatchEvent
deleted_event = record { type = watch_deleted; flow = bare_flow jobs none }

-- The event of the deletion is heard.
heard :
    hear items backend shelves event_delete jobs (quiet []) ≡ (ok (some deleted_event), quiet [])
unfolding deleted_event
heard = hear-deleted items backend shelves jobs (quiet []) jobs-IsPlain

queued : Leads announced_state queued_state
unfolding build_watch_event watched_name path_base path_dir active_key flow_prefix path_join
    has_suffix text_eq pure
queued = next here (watch 1 event_delete jobs [] refl)

abbrev begun_queue : MemoryQueue items
begun_queue = record {
  q = record no_items { processing = jobs ∷ [] };
  enqueued = λ j. if text_eq jobs j then none else if text_eq jobs j then some 1 else none;
}

get-queued : get items 2 queued_state.queue ≡ some ((jobs, 1), begun_queue)
unfolding get add push take first_idle without_item text_eq
get-queued = refl

begin-alone_example : queued_state.in_work jobs ≡ none
begin-alone_example =
    begin-alone items backend shelves rendering config announced_state queued_state 2 jobs 1
      begun_queue announced_state-IsLive queued get-queued

queued-Attends : Attends items backend shelves jobs rendering config queued
unfolding queued Attends deleted_event
queued-Attends = (tt, inr (deleted_event, ap (λ r. r.0) heard))

Reach-Accounted_example :
    (queued_state.missed jobs ≡ false) × Accounted items backend shelves queued_state jobs
Reach-Accounted_example =
    Reach-Accounted items backend shelves rendering config announced_state queued_state jobs
      announced_state-IsLive queued jobs-IsPlain refl queued-Attends

abbrev begun_state : Running
begun_state = start items backend shelves jobs begun_queue queued_state

abbrev seen : Found
seen = (get_active_flow backend jobs (quiet [])).0

abbrev done_state : Running
done_state =
    conclude items backend shelves 3 jobs seen
      (act backend shelves rendering config 3 jobs seen begun_state.systems) begun_state

in-work : begun_state.in_work jobs ≡ some seen
unfolding text_eq
in-work = refl

done : Leads announced_state done_state
done = next (next queued (begin 2 jobs 1 begun_queue get-queued)) (finish 3 jobs seen in-work)

done-events : done_state.events ≡ []
unfolding act get_active_flow get_key ◌>>=◌ find delete_runtime_resources delete_all delete_object
done-events = refl

done-waits : (k : Text) → items.waits done_state.queue.q k ≡ false
unfolding act get_active_flow get_key ◌>>=◌ find delete_runtime_resources delete_all delete_object
    forget without_item text_eq
done-waits k = refl

done-in-work : (k : Text) → done_state.in_work k ≡ none
unfolding act get_active_flow get_key ◌>>=◌ find delete_runtime_resources delete_all delete_object
done-in-work k = ground arith

done-Attends : Attends items backend shelves jobs rendering config done
unfolding done Attends
done-Attends = ((queued-Attends, tt), tt)

idle-settled_example :
    done_state.settled jobs ≡ some (view items backend shelves done_state.systems.store.server jobs)
idle-settled_example =
    idle-settled items backend shelves rendering config announced_state done_state
      announced_state-IsLive done done-events done-waits done-in-work jobs jobs-IsPlain refl
      done-Attends
