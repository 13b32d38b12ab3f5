-- ===== src/Controller/System/Progress.antt =====
-- No change of a flow is forgotten but by the watch, in whatever order the writers, the watch and the
-- workers take their steps.
pub mod Steps
pub mod Watching
pub mod Attends
pub mod Workers
pub mod Finish
pub mod Reached
use flow_pipe.Prelude.{
  ℕ, ◌≡◌, refl, ap, sym, ◌∙◌, Bool, true, false, Option, none, some, Bool-cases, inl, inr, ◌⊎◌,
  List, [], ◌∷◌, ◌++◌, All, All-append, Elem, Elem-append_left, Elem-append_right, arith,
  if◌then◌else◌,
}
use flow_pipe.Text.{Text, text_eq, text_eq→eq, text_eq_refl}
use flow_pipe.Text.FilePath.Laws.{IsPlain}
use flow_pipe.Remote.{Result, ok, err, World}
use flow_pipe.Backend.{Backend, StoreError}
use flow_pipe.Controller.Kube.{Kube}
use flow_pipe.Controller.RateLimiting.{RateLimiting}
use flow_pipe.Controller.Queue.{MemoryQueue, add, get, forget, retry, taken}
use flow_pipe.Controller.Reconcile.{Found}
use flow_pipe.Controller.System.{State, view, deliver}

module _ (Q : RateLimiting) (B : Backend) (K : Kube) where
  -- What is known of the flow `m`: an event of it was lost, or never asked for, and no worker has read
  -- it since; or its change is announced; or it waits in the queue; or
  -- a worker has read it as it is; or a worker's read has failed, and it will be retried; or
  -- no worker has it, and the last successful reconciliation had read it as it is.
  pub data Accounted (st : State Q B K) (m : Text) : Type 0 where
    overlooked : st.missed m ≡ true → Accounted st m
    announced : Elem m st.events → Accounted st m
    waiting : Q.waits st.queue.q m ≡ true → Accounted st m
    fresh : st.in_work m ≡ some (view Q B K st.systems.store.server m) → Accounted st m
    failed : (e : StoreError) → st.in_work m ≡ some (err e) → Accounted st m
    settled :
        st.in_work m ≡ none
        → st.settled m ≡ some (view Q B K st.systems.store.server m)
        → Accounted st m

  pub record IsLive (st : State Q B K) : Type 0 where
    pub opened : Q.is_open st.queue.q ≡ true
    pub working : (k : Text) (f : Found) → st.in_work k ≡ some f → Q.works st.queue.q k ≡ true
    pub plain_events : All IsPlain st.events
    pub plain_waits : (k : Text) → Q.waits st.queue.q k ≡ true → IsPlain k
    pub plain_works : (k : Text) (f : Found) → st.in_work k ≡ some f → IsPlain k
    pub accounted : (m : Text) → IsPlain m → Accounted st m
