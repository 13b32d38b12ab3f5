-- ===== src/Controller/System/Progress/Workers.antt =====
-- Both halves of a worker's round keep account of every flow.
use flow_pipe.Prelude.{
  ℕ, ◌≡◌, refl, ap, sym, subst, ◌∙◌, false, Option, none, some, Bool-cases, inl, inr, arith,
}
use flow_pipe.Text.{Text, text_eq, text_eq→eq, text_eq_refl}
use flow_pipe.Text.FilePath.Laws.{IsPlain}
use flow_pipe.Remote.{ok, err}
use flow_pipe.Backend.{Backend}
use flow_pipe.Controller.Kube.{Kube}
use flow_pipe.Controller.RateLimiting.{RateLimiting}
use flow_pipe.Controller.Queue.{MemoryQueue, get, taken}
use flow_pipe.Controller.Flows.{get_active_flow}
use flow_pipe.Controller.Reconcile.{Found}
use flow_pipe.Controller.System.{State, start}
use flow_pipe.Controller.System.Views.{view-read, read-view}
use flow_pipe.Controller.System.Progress.{
  Accounted, overlooked, announced, waiting, fresh, failed, settled, IsLive,
}

module _ (Q : RateLimiting) (B : Backend) (K : Kube) where
  taken-inv :
      (now : ℕ) (m : MemoryQueue Q) (found : Option (Text × Q.Queue)) (k : Text) (lag : ℕ)
      (m' : MemoryQueue Q)
      → taken Q now m found ≡ some ((k, lag), m')
      → found ≡ some (k, m'.q)
  taken-inv now m none k lag m' e = ground arith
  taken-inv now m (some (j, q)) k lag m' e = ground arith

  pub get-inv :
      (now : ℕ) (m : MemoryQueue Q) (k : Text) (lag : ℕ) (m' : MemoryQueue Q)
      → get Q now m ≡ some ((k, lag), m')
      → Q.get m.q ≡ some (k, m'.q)
  unfolding get
  get-inv now m k lag m' e = taken-inv now m (Q.get m.q) k lag m' e

  module _ (st : State Q B K) (k : Text) (queue : MemoryQueue Q)
      (e : Q.get st.queue.q ≡ some (k, queue.q)) where
    same-Accounted :
        (m : Text)
        → text_eq k m ≡ false
        → Accounted Q B K st m
        → Accounted Q B K (start Q B K k queue st) m
    same-Accounted m d (overlooked h) = overlooked (rw d h)
    same-Accounted m d (announced h) = announced h
    same-Accounted m d (waiting h) = waiting (Q.waits-get st.queue.q k queue.q m e d ∙ h)
    same-Accounted m d (fresh h) =
        fresh (rw d (h ∙ ap some (sym (view-read Q B K st.systems.store k m))))
    same-Accounted m d (failed x h) = failed x (rw d h)
    same-Accounted m d (settled h i) =
        settled (rw d h) (i ∙ ap some (sym (view-read Q B K st.systems.store k m)))

    taken-Accounted :
        (r : Found)
        → (get_active_flow B k st.systems.store).0 ≡ r
        → Accounted Q B K (start Q B K k queue st) k
    taken-Accounted (err x) h = failed x (rw (text_eq_refl k) (ap some h))
    taken-Accounted (ok found) h = fresh (
        rw (text_eq_refl k) (
          ap some (
            h
            ∙ sym (read-view Q B K st.systems.store k found h)
            ∙ sym (view-read Q B K st.systems.store k k))))

    pub start-IsLive : IsLive Q B K st → IsLive Q B K (start Q B K k queue st)
    start-IsLive l =
        let plain = l.plain_waits k (Q.get-waits st.queue.q k queue.q e) in
        record {
          opened = Q.is_open-get st.queue.q k queue.q e ∙ l.opened;
          working = λ j f h. Q.works-get st.queue.q k queue.q j e ∙ ground (arith, l.working j f);
          plain_events = l.plain_events;
          plain_waits = λ j h. elim (Bool-cases (text_eq k j)) [
            | inl same ↦ subst IsPlain (text_eq→eq k j same) plain
            | inr other ↦ l.plain_waits j (sym (Q.waits-get st.queue.q k queue.q j e other) ∙ h)
          ];
          plain_works = λ j f h. elim (Bool-cases (text_eq k j)) [
            | inl same ↦ subst IsPlain (text_eq→eq k j same) plain
            | inr other ↦ l.plain_works j f (rw other at h)
          ];
          accounted = λ m pm. elim (Bool-cases (text_eq k m)) [
            | inl same ↦
                subst (Accounted Q B K (start Q B K k queue st)) (text_eq→eq k m same)
                  (taken-Accounted _ refl)
            | inr other ↦ same-Accounted m other (l.accounted m pm)
          ];
        }
