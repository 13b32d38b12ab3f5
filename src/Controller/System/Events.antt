-- ===== src/Controller/System/Events.antt =====
-- What the watch makes of the event of a flow.
use flow_pipe.Prelude.{◌≡◌, refl, true, false, Option, none, some, arith}
use flow_pipe.Text.{Text}
use flow_pipe.Text.FilePath.Laws.{IsPlain}
use flow_pipe.Remote.{Result, ok, World, ◌>>=◌, value_or_none}
use flow_pipe.Backend.{Backend, StoreError}
use flow_pipe.Controller.Kube.{Kube}
use flow_pipe.Controller.RateLimiting.{RateLimiting}
use flow_pipe.Controller.Flows.{
  WatchEvent, EtcdEventType, event_put, event_delete, event_unknown, WatchEventType, watch_added,
  watch_updated, watch_deleted, bare_flow, Active, report, get_active_flow, build_watch_event,
}
use flow_pipe.Controller.Flows.Watch.{active_key-IsActive, watched_name-active_key}
use flow_pipe.Controller.System.{hear}
use flow_pipe.Controller.System.Views.{get_active_flow-Reads}

-- It reads, and what it makes of the event bears the flow's name.
pub record Hears {S : Type 0} (name : Text) (w : World S)
    (r : Result StoreError (Option WatchEvent) × World S) : Type 0 where
  pub server : r.1.server ≡ w.server
  pub named : (ev : WatchEvent) → r.0 ≡ ok (some ev) → ev.flow.name ≡ name

module _ (Q : RateLimiting) (B : Backend) (K : Kube) where
  report-name :
      (type : WatchEventType) (name : Text) (found : Option Active) (ev : WatchEvent)
      → ◌≡◌ {A = Result StoreError (Option WatchEvent)}
          (ok (report B type name found))
          (ok (some ev))
      → ev.flow.name ≡ name
  report-name type name none ev e = ground arith
  report-name type name (some found) ev e = ground arith

  fetched-Hears :
      (type : WatchEventType) (name : Text) (w : World B.etcd.Server)
      → Hears name w (
        ok (report B type name (value_or_none (get_active_flow B name w).0)),
        (get_active_flow B name w).1,
      )
  fetched-Hears type name w = record {
    server = (get_active_flow-Reads B name).keeps w;
    named = report-name type name (value_or_none (get_active_flow B name w).0);
  }

  -- The event of a deletion is never dropped.
  pub hear-deleted :
      (name : Text) (w : World B.etcd.Server)
      → IsPlain name
      → hear Q B K event_delete name w
        ≡ (ok (some (record { type = watch_deleted; flow = bare_flow name none })), w)
  unfolding build_watch_event ◌>>=◌
  hear-deleted name w pn = rw (active_key-IsActive pn, watched_name-active_key pn) refl

  pub hear-Hears :
      (type : EtcdEventType) (name : Text) (w : World B.etcd.Server)
      → IsPlain name
      → Hears name w (hear Q B K type name w)
  unfolding build_watch_event ◌>>=◌
  hear-Hears (event_put true) name w pn =
      rw (active_key-IsActive pn, watched_name-active_key pn) (fetched-Hears watch_added name w)
  hear-Hears (event_put false) name w pn =
      rw (active_key-IsActive pn, watched_name-active_key pn) (fetched-Hears watch_updated name w)
  hear-Hears event_delete name w pn =
      rw (hear-deleted name w pn) (record { server = refl; named = λ ev e. ground arith })
  hear-Hears event_unknown name w pn =
      rw (active_key-IsActive pn) (record { server = refl; named = λ ev e. ground arith })
