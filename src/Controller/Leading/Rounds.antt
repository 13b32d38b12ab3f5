-- ===== src/Controller/Leading/Rounds.antt =====
-- How often a worker can still begin once the queue is shut down.
use flow_pipe.Prelude.{
  ℕ, suc, ◌+◌, ◌≤◌, ◌≡◌, Bool, true, false, inl, inr, Bool-cases, List, [], ◌∷◌, length, arith,
  if◌then◌else◌,
}
use flow_pipe.Text.{Text, text_eq, text_eq→eq}
use flow_pipe.Text.Names.{contains}
use flow_pipe.Backend.{Backend}
use flow_pipe.Controller.Kube.{Kube}
use flow_pipe.Controller.RateLimiting.{RateLimiting}
use flow_pipe.Controller.Queue.{shutdown}
use flow_pipe.Controller.Runtime.{Rendering}
use flow_pipe.Controller.Reconcile.{ControllerConfig}
use flow_pipe.Controller.System.{
  State, Step, write, write_unseen, watch, watch_opened, watch_ended, begin, finish,
}
use flow_pipe.Controller.System.Progress.Workers.{get-inv}
use flow_pipe.Controller.Leading.{
  standby, leading, stop, Process, Move, elected, lost, cancelled, left, work, Life, now_here,
  then_move,
}
use flow_pipe.Controller.Leading.Closed.{Shrinks, shutdown-Shrinks, Move-Shrinks}

-- How many of the names are in the set.
unfoldable count : (Text → Bool) → List Text → ℕ
count f [] = 0
count f (k ∷ ks) = let rest = count f ks in if f k then suc rest else rest

count-length : (f : Text → Bool) (ks : List Text) → count f ks ≤ length ks
unfolding count
count-length f [] = omega arith
count-length f (k ∷ ks) = ground (arith, count-length f ks)

module _ (f g : Text → Bool) (fewer : (k : Text) → g k ≡ true → f k ≡ true) where
  count-fewer : (ks : List Text) → count g ks ≤ count f ks
  unfolding count
  count-fewer [] = omega arith
  count-fewer (k ∷ ks) = ground (arith, count-fewer ks, fewer k)

  -- One that is listed and left the set makes a difference.
  count-left :
      (j : Text) (ks : List Text)
      → contains ks j ≡ true
      → f j ≡ true
      → g j ≡ false
      → suc (count g ks) ≤ count f ks
  unfolding count
  count-left j [] h fj gj = ground arith
  count-left j (k ∷ ks) h fj gj = elim (Bool-cases (text_eq k j)) [
    | inl same ↦ let kj = text_eq→eq k j same in rw (kj, fj, gj) (omega (arith, count-fewer ks))
    | inr differ ↦ ground (arith, count-left j ks (rw differ at h) fj gj, fewer k)
  ]

module _ (Q : RateLimiting) (B : Backend) (K : Kube) (R : Rendering)
    (config : ControllerConfig) where
  -- How often a worker begins.
  abbrev pub step_begins : {s t : State Q B K} → Step Q B K R config s t → ℕ
  step_begins (write name server pn same on) = 0
  step_begins (write_unseen name server pn same off) = 0
  step_begins (watch now type name rest e) = 0
  step_begins (watch_opened off) = 0
  step_begins (watch_ended on) = 0
  step_begins (begin now k lag queue e) = 1
  step_begins (finish now k found e) = 0

  abbrev pub move_begins : {p r : Process Q B K} → Move Q B K R config p r → ℕ
  move_begins (elected now e) = 0
  move_begins (lost e) = 0
  move_begins (cancelled e) = 0
  move_begins (left e) = 0
  move_begins (work step) = step_begins step

  unfoldable pub begins : {p r : Process Q B K} → Life Q B K R config p r → ℕ
  begins now_here = 0
  begins (then_move l m) = begins l + move_begins m

  module _ (names : List Text) where
    abbrev left_over : Q.Queue → ℕ
    left_over q = count (Q.waits q) names

    abbrev Covers : Q.Queue → Type 0
    Covers q = (k : Text) → Q.waits q k ≡ true → contains names k ≡ true

    fewer_left : {q r : Q.Queue} → Shrinks Q q r → 0 + left_over r ≤ left_over q
    fewer_left {q} {r} h = omega (arith, count-fewer (Q.waits q) (Q.waits r) h.fewer names)

    step-begins :
        {s t : State Q B K} (step : Step Q B K R config s t)
        → Shrinks Q s.queue.q t.queue.q
        → Covers s.queue.q
        → Q.is_open s.queue.q ≡ false
        → step_begins step + left_over t.queue.q ≤ left_over s.queue.q
    step-begins {s} (begin now k lag queue e) h c o =
        let got = get-inv Q B K now s.queue k lag queue e in
        let was = Q.get-waits s.queue.q k queue.q got in
        omega (
          arith,
          count-left (Q.waits s.queue.q) (Q.waits queue.q) h.fewer k names (c k was) was
              (Q.waits-get_closed s.queue.q k queue.q got o),
        )
    step-begins (write name server pn same on) h c o = fewer_left h
    step-begins (write_unseen name server pn same off) h c o = fewer_left h
    step-begins (watch now type name rest e) h c o = fewer_left h
    step-begins (watch_opened off) h c o = fewer_left h
    step-begins (watch_ended on) h c o = fewer_left h
    step-begins (finish now k found e) h c o = fewer_left h

    Move-begins :
        {p r : Process Q B K} (m : Move Q B K R config p r)
        → Shrinks Q p.state.queue.q r.state.queue.q
        → Covers p.state.queue.q
        → Q.is_open p.state.queue.q ≡ false
        → move_begins m + left_over r.state.queue.q ≤ left_over p.state.queue.q
    Move-begins (work step) h c o = step-begins step h c o
    Move-begins (elected now e) h c o = fewer_left h
    Move-begins (lost e) h c o = fewer_left h
    Move-begins (cancelled e) h c o = fewer_left h
    Move-begins (left e) h c o = fewer_left h

    record Counted (p r : Process Q B K) (l : Life Q B K R config p r) : Type 0 where
      closed : Q.is_open r.state.queue.q ≡ false
      covers : Covers r.state.queue.q
      counted : begins l + left_over r.state.queue.q ≤ left_over p.state.queue.q

    Life-Counted :
        {p r : Process Q B K} (l : Life Q B K R config p r)
        → Q.is_open p.state.queue.q ≡ false
        → Covers p.state.queue.q
        → Counted p r l
    unfolding begins
    Life-Counted now_here h c = record { closed = h; covers = c; counted = omega arith }
    Life-Counted (then_move l m) h c =
        let before = Life-Counted l h c in
        let s = Move-Shrinks Q B K R config m before.closed in
        record {
          closed = s.closed;
          covers = λ k w. before.covers k (s.fewer k w);
          counted = omega (arith, before.counted, Move-begins m s before.covers before.closed);
        }

    -- When a term of leadership ends, by the loss of the lease, the workers begin from then on, in all
    -- the life of the process, no more often than there are names in a list that covers the items
    -- that waited in the queue at that moment: whatever terms, writes, events and retries follow.
    pub shutdown_bounds_begins :
        (p r : Process Q B K)
        → p.phase ≡ leading
        → ((k : Text) → Q.waits p.state.queue.q k ≡ true → contains names k ≡ true)
        → (l : Life Q B K R config (record { phase = standby; state = stop Q B K p.state }) r)
        → begins l ≤ length names
    shutdown_bounds_begins p r led covers l =
        let s = shutdown-Shrinks Q p.state.queue in
        omega (
          arith,
          (Life-Counted l s.closed (λ k w. covers k (s.fewer k w))).counted,
          count-length (Q.waits (shutdown Q p.state.queue).q) names,
        )
