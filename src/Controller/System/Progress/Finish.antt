-- ===== src/Controller/System/Progress/Finish.antt =====
-- The end of a worker's round keeps account of every flow.
use flow_pipe.Prelude.{
  ℕ, ◌≡◌, refl, ap, sym, subst, ◌∙◌, true, false, none, some, Bool-cases, inl, inr, arith,
  if◌then◌else◌,
}
use flow_pipe.Text.{Text, text_eq, text_eq→eq, text_eq_refl}
use flow_pipe.Text.FilePath.Laws.{IsPlain}
use flow_pipe.Remote.{ok, err}
use flow_pipe.Backend.{Backend, StoreError}
use flow_pipe.Controller.Kube.{Kube}
use flow_pipe.Controller.RateLimiting.{RateLimiting}
use flow_pipe.Controller.Queue.{forget, retry}
use flow_pipe.Controller.Reconcile.{ReconcileError, Found, Systems}
use flow_pipe.Controller.System.{State, view, conclude, set_at}
use flow_pipe.Controller.System.Progress.{
  Accounted, overlooked, announced, waiting, fresh, failed, settled, IsLive,
}

module _ (Q : RateLimiting) (B : Backend) (K : Kube) (st : State Q B K) (now : ℕ) (k : Text)
    (found : Found) (e : st.in_work k ≡ some found) (systems : Systems B K)
    (shown : (m : Text)
      → IsPlain m
      → view Q B K systems.store.server m ≡ view Q B K st.systems.store.server m)
    (l : IsLive Q B K st) where
  abbrev succeeded : State Q B K
  succeeded = conclude Q B K now k found (ok tt, systems) st

  abbrev retried : ReconcileError → State Q B K
  retried x = conclude Q B K now k found (err x, systems) st

  waits-forget : (j : Text) → Q.waits (forget Q k st.queue).q j ≡ Q.waits st.queue.q j
  unfolding forget
  waits-forget j = Q.waits-done k (Q.forget k st.queue.q) j ∙ Q.waits-forget k st.queue.q j

  waits-retry :
      (j : Text)
      → Q.waits (retry Q now k st.queue).q j ≡ (if text_eq k j then true else Q.waits st.queue.q j)
  unfolding retry
  waits-retry j =
      Q.waits-done k (Q.add_rate_limited k st.queue.q) j
      ∙ Q.waits-add_rate_limited k st.queue.q j l.opened

  works-forget :
      (j : Text)
      → Q.works (forget Q k st.queue).q j ≡ (if text_eq k j then false else Q.works st.queue.q j)
  unfolding forget
  works-forget j =
      Q.works-done k (Q.forget k st.queue.q) j ∙ rw (Q.works-forget k st.queue.q j) refl

  works-retry :
      (j : Text)
      → Q.works (retry Q now k st.queue).q j ≡ (if text_eq k j then false else Q.works st.queue.q j)
  unfolding retry
  works-retry j =
      Q.works-done k (Q.add_rate_limited k st.queue.q) j
      ∙ rw (Q.works-add_rate_limited k st.queue.q j) refl

  opened-forget : Q.is_open (forget Q k st.queue).q ≡ true
  unfolding forget
  opened-forget =
      Q.is_open-done k (Q.forget k st.queue.q) ∙ Q.is_open-forget k st.queue.q ∙ l.opened

  opened-retry : Q.is_open (retry Q now k st.queue).q ≡ true
  unfolding retry
  opened-retry =
      Q.is_open-done k (Q.add_rate_limited k st.queue.q)
      ∙ Q.is_open-add_rate_limited k st.queue.q
      ∙ l.opened

  succeeded-others :
      (m : Text)
      → IsPlain m
      → text_eq k m ≡ false
      → Accounted Q B K st m
      → Accounted Q B K succeeded m
  succeeded-others m pm d (overlooked h) = overlooked h
  succeeded-others m pm d (announced h) = announced h
  succeeded-others m pm d (waiting h) = waiting (waits-forget m ∙ h)
  succeeded-others m pm d (fresh h) = fresh (rw d (h ∙ ap some (sym (shown m pm))))
  succeeded-others m pm d (failed x h) = failed x (rw d h)
  succeeded-others m pm d (settled h i) = settled (rw d h) (rw d (i ∙ ap some (sym (shown m pm))))

  succeeded_self :
      IsPlain k
      → ((x : StoreError) → found ≡ err x → ⊥)
      → Accounted Q B K st k
      → Accounted Q B K succeeded k
  succeeded_self pk read (overlooked h) = overlooked h
  succeeded_self pk read (announced h) = announced h
  succeeded_self pk read (waiting h) = waiting (waits-forget k ∙ h)
  succeeded_self pk read (fresh h) =
      settled (rw (text_eq_refl k) refl)
        (rw (text_eq_refl k) (sym e ∙ h ∙ ap some (sym (shown k pk))))
  succeeded_self pk read (failed x h) = absurd (read x (cc (e, h)))
  succeeded_self pk read (settled h i) = cc (e, h)

  retried-others :
      (x : ReconcileError) (m : Text)
      → IsPlain m
      → text_eq k m ≡ false
      → Accounted Q B K st m
      → Accounted Q B K (retried x) m
  retried-others x m pm d (overlooked h) = overlooked h
  retried-others x m pm d (announced h) = announced h
  retried-others x m pm d (waiting h) = waiting (waits-retry m ∙ rw d h)
  retried-others x m pm d (fresh h) = fresh (rw d (h ∙ ap some (sym (shown m pm))))
  retried-others x m pm d (failed y h) = failed y (rw d h)
  retried-others x m pm d (settled h i) = settled (rw d h) (i ∙ ap some (sym (shown m pm)))

  -- What the worker had in hand leaves `in_work`; the rest of it stays.
  still_in_work :
      (j : Text) (f : Found)
      → set_at Q B K k none st.in_work j ≡ some f
      → (text_eq k j ≡ false) × (st.in_work j ≡ some f)
  still_in_work j f h = ground arith

  pub succeeded-IsLive : ((x : StoreError) → found ≡ err x → ⊥) → IsLive Q B K succeeded
  succeeded-IsLive read =
      let pk = l.plain_works k found e in
      record {
        opened = opened-forget;
        working = λ j f h.
            let still = still_in_work j f h in
            works-forget j ∙ rw (still.0) (l.working j f still.1);
        plain_events = l.plain_events;
        plain_waits = λ j h. l.plain_waits j (sym (waits-forget j) ∙ h);
        plain_works = λ j f h. l.plain_works j f (still_in_work j f h).1;
        accounted = λ m pm. elim (Bool-cases (text_eq k m)) [
          | inl same ↦
              subst (Accounted Q B K succeeded) (text_eq→eq k m same)
                (succeeded_self pk read (l.accounted k pk))
          | inr other ↦ succeeded-others m pm other (l.accounted m pm)
        ];
      }

  pub retried-IsLive : (x : ReconcileError) → IsLive Q B K (retried x)
  retried-IsLive x = record {
    opened = opened-retry;
    working = λ j f h.
        let still = still_in_work j f h in works-retry j ∙ rw (still.0) (l.working j f still.1);
    plain_events = l.plain_events;
    plain_waits = λ j h. elim (Bool-cases (text_eq k j)) [
      | inl same ↦ subst IsPlain (text_eq→eq k j same) (l.plain_works k found e)
      | inr other ↦ l.plain_waits j (sym (rw other at (waits-retry j)) ∙ h)
    ];
    plain_works = λ j f h. l.plain_works j f (still_in_work j f h).1;
    accounted = λ m pm. elim (Bool-cases (text_eq k m)) [
      | inl same ↦ waiting (waits-retry m ∙ rw same refl)
      | inr other ↦ retried-others x m pm other (l.accounted m pm)
    ];
  }
