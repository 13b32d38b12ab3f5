-- ===== src/Controller/System/Progress/Attends.antt =====
-- Runs in which the watch misses no change of a flow.
use flow_pipe.Prelude.{
  ℕ, ◌≡◌, refl, ◌⊎◌, inl, inr, Bool, true, false, Option, none, some, List, [], ◌∷◌, arith, ◌∙◌,
}
use flow_pipe.Text.{Text, text_eq}
use flow_pipe.Text.Names.{contains}
use flow_pipe.Remote.{Result, ok, err, World}
use flow_pipe.Backend.{Backend, StoreError}
use flow_pipe.Controller.Kube.{Kube}
use flow_pipe.Controller.RateLimiting.{RateLimiting}
use flow_pipe.Controller.Flows.{WatchEvent}
use flow_pipe.Controller.Runtime.{Rendering}
use flow_pipe.Controller.Reconcile.{ControllerConfig, Found, Ended, act}
use flow_pipe.Controller.System.{
  State, mark, mark_all, hear, deliver, conclude, Step, write, write_unseen, watch, watch_opened,
  watch_ended, begin, finish, Reach, here, next,
}

module _ (Q : RateLimiting) (B : Backend) (K : Kube) (m : Text) where
  mark_all-others :
      (ks : List Text) (f : Text → Bool)
      → contains ks m ≡ false
      → f m ≡ false
      → mark_all Q B K ks f m ≡ false
  mark_all-others [] f h e = e
  mark_all-others (k ∷ ks) f h e =
      mark_all-others ks (mark Q B K k true f) (ground arith) (ground arith)

  deliver-missed :
      (now : ℕ) (name : Text) (rest : List Text)
      (r : Result StoreError (Option WatchEvent) × World B.etcd.Server) (st : State Q B K)
      → ((text_eq name m ≡ false) ⊎ ((ev : WatchEvent) × (r.0 ≡ ok (some ev))))
      → st.missed m ≡ false
      → (deliver Q B K now name rest r st).missed m ≡ false
  deliver-missed now name rest (ok (some ev), w) st h e = e
  deliver-missed now name rest (ok none, w) st (inl d) e = rw d e
  deliver-missed now name rest (ok none, w) st (inr (ev, h)) e = ground arith
  deliver-missed now name rest (err x, w) st (inl d) e = rw d e
  deliver-missed now name rest (err x, w) st (inr (ev, h)) e = ground arith

  conclude-missed :
      (now : ℕ) (k : Text) (found : Found) (ended : Ended B K) (st : State Q B K)
      → (conclude Q B K now k found ended st).missed m ≡ st.missed m
  conclude-missed now k found (ok done, systems) st = refl
  conclude-missed now k found (err x, systems) st = refl

  module _ (R : Rendering) (config : ControllerConfig) where
    -- A change of the flow is written while the watch is open; the watch can fetch the flow for each of
    -- its events; and it does not end before it has taken them.
    abbrev pub StepAttends : {s t : State Q B K} → Step Q B K R config s t → Type 0
    StepAttends (write name server pn same on) = Unit
    StepAttends (write_unseen name server pn same off) = text_eq name m ≡ false
    StepAttends {s} (watch now type name rest e) =
        (text_eq name m ≡ false)
        ⊎ ((ev : WatchEvent) × ((hear Q B K type name s.systems.store).0 ≡ ok (some ev)))
    StepAttends (watch_opened off) = Unit
    StepAttends {s} (watch_ended on) = contains s.events m ≡ false
    StepAttends (begin now k lag queue e) = Unit
    StepAttends (finish now k found e) = Unit

    unfoldable pub Attends : {s t : State Q B K} → Reach Q B K R config s t → Type 0
    Attends here = Unit
    Attends (next r step) = Attends r × StepAttends step

    step-missed :
        {s t : State Q B K} (step : Step Q B K R config s t)
        → StepAttends step
        → s.missed m ≡ false
        → t.missed m ≡ false
    step-missed (write name server pn same on) a e = e
    step-missed (write_unseen name server pn same off) a e = rw a e
    step-missed {s} (watch now type name rest eq) a e = deliver-missed now name rest _ s a e
    step-missed (watch_opened off) a e = e
    step-missed {s} (watch_ended on) a e = mark_all-others s.events s.missed a e
    step-missed (begin now k lag queue eq) a e = ground arith
    step-missed {s} (finish now k found eq) a e =
        conclude-missed now k found (act B K R config now k found s.systems) s ∙ e

    pub Reach-missed :
        {s t : State Q B K} (r : Reach Q B K R config s t)
        → Attends r
        → s.missed m ≡ false
        → t.missed m ≡ false
    unfolding Attends
    Reach-missed here a e = e
    Reach-missed (next r step) a e = step-missed step a.1 (Reach-missed r a.0 e)
