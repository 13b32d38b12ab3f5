-- ===== src/Controller/System/Progress/Watching.antt =====
-- The watch's steps keep account of every flow.
use flow_pipe.Prelude.{
  ℕ, ◌≡◌, refl, ap, sym, subst, ◌∙◌, Bool, true, false, Option, none, some, Bool-cases, inl, inr,
  List, [], ◌∷◌, All, Elem, arith,
}
use flow_pipe.Text.{Text, text_eq, text_eq→eq, text_eq_iff, text_eq_refl}
use flow_pipe.Text.FilePath.Laws.{IsPlain}
use flow_pipe.Remote.{Result, ok, err, World}
use flow_pipe.Backend.{Backend, StoreError}
use flow_pipe.Controller.Kube.{Kube}
use flow_pipe.Controller.RateLimiting.{RateLimiting}
use flow_pipe.Controller.Queue.{add}
use flow_pipe.Controller.Flows.{WatchEvent}
use flow_pipe.Controller.System.{State, view, mark, mark_all, deliver}
use flow_pipe.Controller.System.Events.{Hears}
use flow_pipe.Controller.System.Progress.{
  Accounted, overlooked, announced, waiting, fresh, failed, settled, IsLive,
}

module _ (Q : RateLimiting) (B : Backend) (K : Kube) where
  mark_all-kept :
      (ks : List Text) (f : Text → Bool) (m : Text) → f m ≡ true → mark_all Q B K ks f m ≡ true
  mark_all-kept [] f m h = h
  mark_all-kept (k ∷ ks) f m h = mark_all-kept ks (mark Q B K k true f) m (ground arith)

  mark_all-Elem :
      (ks : List Text) (f : Text → Bool) (m : Text) → Elem m ks → mark_all Q B K ks f m ≡ true
  mark_all-Elem [] f m h = elim h [ ]
  mark_all-Elem (k ∷ ks) f m (inl e) =
      mark_all-kept ks (mark Q B K k true f) m (rw (e, text_eq_refl k) refl)
  mark_all-Elem (k ∷ ks) f m (inr h) = mark_all-Elem ks (mark Q B K k true f) m h

  module _ (st : State Q B K) (l : IsLive Q B K st) where
    abbrev ended : State Q B K
    ended = record st { watching = false; events = []; missed = mark_all Q B K st.events st.missed }

    ended-Accounted : (m : Text) → Accounted Q B K st m → Accounted Q B K ended m
    ended-Accounted m (overlooked h) = overlooked (mark_all-kept st.events st.missed m h)
    ended-Accounted m (announced h) = overlooked (mark_all-Elem st.events st.missed m h)
    ended-Accounted m (waiting h) = waiting h
    ended-Accounted m (fresh h) = fresh h
    ended-Accounted m (failed e h) = failed e h
    ended-Accounted m (settled h i) = settled h i

    pub ended-IsLive : IsLive Q B K ended
    ended-IsLive = record {
      opened = l.opened;
      working = l.working;
      plain_events = tt;
      plain_waits = l.plain_waits;
      plain_works = l.plain_works;
      accounted = λ m pm. ended-Accounted m (l.accounted m pm);
    }

    module _ (now : ℕ) (name : Text) (rest : List Text) (e : st.events ≡ name ∷ rest)
        (store : World B.etcd.Server) (same : store.server ≡ st.systems.store.server) where
      shown : (m : Text) → view Q B K st.systems.store.server m ≡ view Q B K store.server m
      shown m = ap (λ s. view Q B K s m) (sym same)

      abbrev dropped : State Q B K
      dropped = record st {
        events = rest;
        missed = mark Q B K name true st.missed;
        systems = record st.systems { store = store };
      }

      abbrev queued : Text → State Q B K
      queued k = record st {
        queue = add Q now k st.queue;
        events = rest;
        systems = record st.systems { store = store };
      }

      dropped-Accounted : (m : Text) → Accounted Q B K st m → Accounted Q B K dropped m
      dropped-Accounted m (overlooked h) = overlooked (ground arith)
      dropped-Accounted m (announced h) = elim (subst (Elem m) e h) [
        | inl this ↦ overlooked (rw (this, text_eq_refl name) refl)
        | inr later ↦ announced later
      ]
      dropped-Accounted m (waiting h) = waiting h
      dropped-Accounted m (fresh h) = fresh (h ∙ ap some (shown m))
      dropped-Accounted m (failed x h) = failed x h
      dropped-Accounted m (settled h i) = settled h (i ∙ ap some (shown m))

      queued-Accounted : (m : Text) → Accounted Q B K st m → Accounted Q B K (queued name) m
      unfolding add
      queued-Accounted m (overlooked h) = overlooked h
      queued-Accounted m (announced h) = elim (subst (Elem m) e h) [
        | inl this ↦
            waiting (Q.waits-add name st.queue.q m l.opened ∙ ground (arith, text_eq_iff name m))
        | inr later ↦ announced later
      ]
      queued-Accounted m (waiting h) =
          waiting (Q.waits-add name st.queue.q m l.opened ∙ ground arith)
      queued-Accounted m (fresh h) = fresh (h ∙ ap some (shown m))
      queued-Accounted m (failed x h) = failed x h
      queued-Accounted m (settled h i) = settled h (i ∙ ap some (shown m))

      plain : All IsPlain (name ∷ rest)
      plain = subst (All IsPlain) e l.plain_events

      dropped-IsLive : IsLive Q B K dropped
      dropped-IsLive = record {
        opened = l.opened;
        working = l.working;
        plain_events = plain.1;
        plain_waits = l.plain_waits;
        plain_works = l.plain_works;
        accounted = λ m pm. dropped-Accounted m (l.accounted m pm);
      }

      queued-IsLive : IsLive Q B K (queued name)
      unfolding add
      queued-IsLive = record {
        opened = Q.is_open-add name st.queue.q ∙ l.opened;
        working = λ k f h. Q.works-add name st.queue.q k ∙ l.working k f h;
        plain_events = plain.1;
        plain_waits = λ k h. elim (Bool-cases (text_eq name k)) [
          | inl this ↦ subst IsPlain (text_eq→eq name k this) plain.0
          | inr other ↦
              l.plain_waits k (sym (rw other at (Q.waits-add name st.queue.q k l.opened)) ∙ h)
        ];
        plain_works = l.plain_works;
        accounted = λ m pm. queued-Accounted m (l.accounted m pm);
      }

    pub deliver-IsLive :
        (now : ℕ) (name : Text) (rest : List Text)
        (r : Result StoreError (Option WatchEvent) × World B.etcd.Server)
        → st.events ≡ name ∷ rest
        → Hears name st.systems.store r
        → IsLive Q B K (deliver Q B K now name rest r st)
    deliver-IsLive now name rest (ok (some ev), store) e h =
        subst (λ k. IsLive Q B K (queued now name rest e store h.server k)) (sym (h.named ev refl))
          (queued-IsLive now name rest e store h.server)
    deliver-IsLive now name rest (ok none, store) e h =
        dropped-IsLive now name rest e store h.server
    deliver-IsLive now name rest (err x, store) e h = dropped-IsLive now name rest e store h.server
