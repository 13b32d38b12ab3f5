-- ===== src/Controller/Leading/Closed.antt =====
-- What a controller can still do once its queue is shut down.
use flow_pipe.Prelude.{
  ℕ, ◌≡◌, sym, ◌∙◌, true, false, Option, none, some, inl, inr, Bool-cases, List, [], ◌∷◌,
}
use flow_pipe.Text.{Text, text_eq, text_eq→eq}
use flow_pipe.Proto.{Flow}
use flow_pipe.Remote.{Result, ok, err, World}
use flow_pipe.Backend.{Backend, StoreError}
use flow_pipe.Controller.Kube.{Kube}
use flow_pipe.Controller.RateLimiting.{RateLimiting}
use flow_pipe.Controller.Queue.{MemoryQueue, add, forget, retry, shutdown}
use flow_pipe.Controller.Runtime.{Rendering}
use flow_pipe.Controller.Reconcile.{ControllerConfig, Found, Ended, act}
use flow_pipe.Controller.Flows.{WatchEvent, list_flows}
use flow_pipe.Controller.Seed.{add_listed, seed, enqueue_existing}
use flow_pipe.Controller.System.{
  State, deliver, conclude, Step, write, write_unseen, watch, watch_opened, watch_ended, begin,
  finish,
}
use flow_pipe.Controller.System.Progress.Workers.{get-inv}
use flow_pipe.Controller.Leading.{Process, seeded, Move, elected, lost, cancelled, left, work}

module _ (Q : RateLimiting) where
  -- From `q` to `r` a queue that is shut down takes in nothing.
  pub record Shrinks (q r : Q.Queue) : Type 0 where
    pub closed : Q.is_open r ≡ false
    pub fewer : (k : Text) → Q.waits r k ≡ true → Q.waits q k ≡ true

  pub Shrinks-refl : (q : Q.Queue) → Q.is_open q ≡ false → Shrinks q q
  Shrinks-refl q h = record { closed = h; fewer = λ k e. e }

  pub Shrinks-trans : {q r t : Q.Queue} → Shrinks q r → Shrinks r t → Shrinks q t
  Shrinks-trans a b = record { closed = b.closed; fewer = λ k e. a.fewer k (b.fewer k e) }

  add-Shrinks :
      (now : ℕ) (k : Text) (m : MemoryQueue Q)
      → Q.is_open m.q ≡ false
      → Shrinks m.q (add Q now k m).q
  unfolding add
  add-Shrinks now k m h = record {
    closed = Q.is_open-add k m.q ∙ h;
    fewer = λ j e. sym (Q.waits-add_closed k m.q j h) ∙ e;
  }

  add_listed-Shrinks :
      (now : ℕ) (flows : List Flow) (m : MemoryQueue Q)
      → Q.is_open m.q ≡ false
      → Shrinks m.q (add_listed Q now flows m).q
  unfolding add_listed
  add_listed-Shrinks now [] m h = Shrinks-refl m.q h
  add_listed-Shrinks now (f ∷ flows) m h =
      let first = add-Shrinks now f.name m h in
      Shrinks-trans first (add_listed-Shrinks now flows (add Q now f.name m) first.closed)

  get-Shrinks :
      (q : Q.Queue) (k : Text) (r : Q.Queue)
      → Q.get q ≡ some (k, r)
      → Q.is_open q ≡ false
      → Shrinks q r
  get-Shrinks q k r e h = record {
    closed = Q.is_open-get q k r e ∙ h;
    fewer = λ j w. elim (Bool-cases (text_eq k j)) [
      | inl same ↦ cc (text_eq→eq k j same, Q.waits-get_closed q k r e h)
      | inr differ ↦ sym (Q.waits-get q k r j e differ) ∙ w
    ];
  }

  forget-Shrinks :
      (k : Text) (m : MemoryQueue Q) → Q.is_open m.q ≡ false → Shrinks m.q (forget Q k m).q
  unfolding forget
  forget-Shrinks k m h = record {
    closed = Q.is_open-done k _ ∙ Q.is_open-forget k m.q ∙ h;
    fewer = λ j e. sym (Q.waits-forget k m.q j) ∙ sym (Q.waits-done k (Q.forget k m.q) j) ∙ e;
  }

  retry-Shrinks :
      (now : ℕ) (k : Text) (m : MemoryQueue Q)
      → Q.is_open m.q ≡ false
      → Shrinks m.q (retry Q now k m).q
  unfolding retry
  retry-Shrinks now k m h = record {
    closed = Q.is_open-done k _ ∙ Q.is_open-add_rate_limited k m.q ∙ h;
    fewer = λ j e.
        sym (Q.waits-add_rate_limited_closed k m.q j h)
        ∙ sym (Q.waits-done k (Q.add_rate_limited k m.q) j)
        ∙ e;
  }

  pub shutdown-Shrinks : (m : MemoryQueue Q) → Shrinks m.q (shutdown Q m).q
  unfolding shutdown
  shutdown-Shrinks m = record { closed = Q.is_open-shut_down m.q; fewer = Q.waits-shut_down m.q }

  pub not_waiting :
      {q r : Q.Queue} (k : Text) → Shrinks q r → Q.waits q k ≡ false → Q.waits r k ≡ false
  not_waiting {q} {r} k s h = elim (Bool-cases (Q.waits r k)) [
    | inl e ↦ cc (s.fewer k e)
    | inr e ↦ e
  ]

module _ (Q : RateLimiting) (B : Backend) (K : Kube) where
  run-Shrinks :
      (st : State Q B K) (out : (Result StoreError (List Flow)) × World B.etcd.Server) (now : ℕ)
      → Q.is_open st.queue.q ≡ false
      → Shrinks Q st.queue.q (seeded Q B K (seed Q B now out st.queue) st).state.queue.q
  run-Shrinks st (ok flows, w) now h = add_listed-Shrinks Q now flows st.queue h
  run-Shrinks st (err e, w) now h = Shrinks-refl Q st.queue.q h

  conclude-Shrinks :
      (now : ℕ) (k : Text) (found : Found) (ended : Ended B K) (st : State Q B K)
      → Q.is_open st.queue.q ≡ false
      → Shrinks Q st.queue.q (conclude Q B K now k found ended st).queue.q
  conclude-Shrinks now k found (ok done, systems) st h = forget-Shrinks Q k st.queue h
  conclude-Shrinks now k found (err e, systems) st h = retry-Shrinks Q now k st.queue h

  deliver-Shrinks :
      (now : ℕ) (name : Text) (rest : List Text)
      (r : Result StoreError (Option WatchEvent) × World B.etcd.Server) (st : State Q B K)
      → Q.is_open st.queue.q ≡ false
      → Shrinks Q st.queue.q (deliver Q B K now name rest r st).queue.q
  deliver-Shrinks now name rest (ok (some ev), w) st h = add-Shrinks Q now ev.flow.name st.queue h
  deliver-Shrinks now name rest (ok none, w) st h = Shrinks-refl Q st.queue.q h
  deliver-Shrinks now name rest (err e, w) st h = Shrinks-refl Q st.queue.q h

  module _ (R : Rendering) (config : ControllerConfig) where
    pub step-Shrinks :
        {s t : State Q B K}
        → Step Q B K R config s t
        → Q.is_open s.queue.q ≡ false
        → Shrinks Q s.queue.q t.queue.q
    step-Shrinks {s} (write name server pn same on) h = Shrinks-refl Q s.queue.q h
    step-Shrinks {s} (write_unseen name server pn same off) h = Shrinks-refl Q s.queue.q h
    step-Shrinks {s} (watch now type name rest e) h = deliver-Shrinks now name rest _ s h
    step-Shrinks {s} (watch_opened off) h = Shrinks-refl Q s.queue.q h
    step-Shrinks {s} (watch_ended on) h = Shrinks-refl Q s.queue.q h
    step-Shrinks {s} (begin now k lag queue e) h =
        get-Shrinks Q s.queue.q k queue.q (get-inv Q B K now s.queue k lag queue e) h
    step-Shrinks {s} (finish now k found e) h =
        conclude-Shrinks now k found (act B K R config now k found s.systems) s h

    pub Move-Shrinks :
        {p r : Process Q B K}
        → Move Q B K R config p r
        → Q.is_open p.state.queue.q ≡ false
        → Shrinks Q p.state.queue.q r.state.queue.q
    unfolding enqueue_existing
    Move-Shrinks {p} (elected now e) h =
        run-Shrinks p.state (list_flows B p.state.systems.store) now h
    Move-Shrinks {p} (lost e) h = shutdown-Shrinks Q p.state.queue
    Move-Shrinks {p} (cancelled e) h = shutdown-Shrinks Q p.state.queue
    Move-Shrinks {p} (left e) h = Shrinks-refl Q p.state.queue.q h
    Move-Shrinks (work step) h = step-Shrinks step h
