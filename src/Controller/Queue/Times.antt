-- ===== src/Controller/Queue/Times.antt =====
-- The times that a queue remembers, in any sequence of its operations.
use flow_pipe.Prelude.{
  Bool-cases, inl, inr, ℕ, ◌≡◌, refl, ◌∙◌, true, Option, none, some, List, [], ◌∷◌, arith,
}
use flow_pipe.Text.{text_eq, Text, text_eq_refl}
use flow_pipe.Controller.RateLimiting.{RateLimiting}
use flow_pipe.Controller.Queue.{MemoryQueue, add, get, forget, retry, taken}

-- A call of one of the operations, at a time.
pub data QueueCall : Type 0 where
  call_add call_retry : ℕ → Text → QueueCall
  call_forget : Text → QueueCall
  call_get : ℕ → QueueCall

module _ (Q : RateLimiting) where
  abbrev after_get : MemoryQueue Q → Option ((Text × ℕ) × MemoryQueue Q) → MemoryQueue Q
  after_get m none = m
  after_get m (some (item, m')) = m'

  abbrev pub apply : QueueCall → MemoryQueue Q → MemoryQueue Q
  apply (call_add now k) m = add Q now k m
  apply (call_retry now k) m = retry Q now k m
  apply (call_forget k) m = forget Q k m
  apply (call_get now) m = after_get m (get Q now m)

  abbrev pub apply_all : List QueueCall → MemoryQueue Q → MemoryQueue Q
  apply_all [] m = m
  apply_all (c ∷ calls) m = apply_all calls (apply c m)

  -- The queue is open, and a time is remembered only for an item that waits.
  pub record IsTimed (m : MemoryQueue Q) : Type 0 where
    pub opened : Q.is_open m.q ≡ true
    pub waiting : (k : Text) (t : ℕ) → m.enqueued k ≡ some t → Q.waits m.q k ≡ true

  add-IsTimed : (now : ℕ) (k : Text) (m : MemoryQueue Q) → IsTimed m → IsTimed (add Q now k m)
  unfolding add
  add-IsTimed now k m h = record {
    opened = Q.is_open-add k m.q ∙ h.opened;
    waiting = λ j t e. ground (arith, Q.waits-add k m.q j h.opened, h.waiting j t);
  }

  retry-IsTimed : (now : ℕ) (k : Text) (m : MemoryQueue Q) → IsTimed m → IsTimed (retry Q now k m)
  unfolding retry
  retry-IsTimed now k m h =
      let q = Q.add_rate_limited k m.q in
      record {
        opened = Q.is_open-done k q ∙ Q.is_open-add_rate_limited k m.q ∙ h.opened;
        waiting = λ j t e.
            ground
              (arith, Q.waits-done k q j, Q.waits-add_rate_limited k m.q j h.opened, h.waiting j t);
      }

  forget-IsTimed : (k : Text) (m : MemoryQueue Q) → IsTimed m → IsTimed (forget Q k m)
  unfolding forget
  forget-IsTimed k m h =
      let q = Q.forget k m.q in
      record {
        opened = Q.is_open-done k q ∙ Q.is_open-forget k m.q ∙ h.opened;
        waiting =
            λ j t e. ground (arith, Q.waits-done k q j, Q.waits-forget k m.q j, h.waiting j t);
      }

  taken-IsTimed :
      (now : ℕ) (m : MemoryQueue Q) (found : Option (Text × Q.Queue))
      → Q.get m.q ≡ found
      → IsTimed m
      → IsTimed (after_get m (taken Q now m found))
  taken-IsTimed now m none e h = h
  taken-IsTimed now m (some (k, q)) e h = record {
    opened = Q.is_open-get m.q k q e ∙ h.opened;
    waiting = λ j t e'. elim (Bool-cases (text_eq k j)) [
      | inl same ↦ ground arith
      | inr differ ↦ ground (arith, Q.waits-get m.q k q j e differ, h.waiting j t)
    ];
  }

  -- An open queue that remembers times only for items that wait does so after any sequence of Add,
  -- Get, Retry and Forget: the map of times never grows beyond the items that wait.
  apply_all-IsTimed :
      (calls : List QueueCall) (m : MemoryQueue Q) → IsTimed m → IsTimed (apply_all calls m)
  unfolding get
  apply_all-IsTimed [] m h = h
  apply_all-IsTimed (call_add now k ∷ calls) m h = apply_all-IsTimed calls _ (add-IsTimed now k m h)
  apply_all-IsTimed (call_retry now k ∷ calls) m h =
      apply_all-IsTimed calls _ (retry-IsTimed now k m h)
  apply_all-IsTimed (call_forget k ∷ calls) m h = apply_all-IsTimed calls _ (forget-IsTimed k m h)
  apply_all-IsTimed (call_get now ∷ calls) m h =
      apply_all-IsTimed calls _ (taken-IsTimed now m (Q.get m.q) refl h)

  -- An item that was added again at time `before` while it was in work, and then forgotten, still waits;
  -- but its time is lost: a Get that hands it out, however late, reports a lag of 0.
  lag-forget-add :
      (before now : ℕ) (k : Text) (lag : ℕ) (m m' : MemoryQueue Q)
      → Q.is_open m.q ≡ true
      → get Q now (forget Q k (add Q before k m)) ≡ some ((k, lag), m')
      → (Q.waits (forget Q k (add Q before k m)).q k ≡ true) × (lag ≡ 0)
  unfolding get forget add
  lag-forget-add before now k lag m m' opened e =
      let q = Q.add k m.q in
      (
        Q.waits-done k (Q.forget k q) k
            ∙ Q.waits-forget k q k
            ∙ Q.waits-add k m.q k opened
            ∙ rw (text_eq_refl k) refl,
        reported (Q.get (Q.done k (Q.forget k q))) e,
      )
    where
      reported :
          (found : Option (Text × Q.Queue))
          → taken Q now (forget Q k (add Q before k m)) found ≡ some ((k, lag), m')
          → lag ≡ 0
      reported none h = ground arith
      reported (some (j, q)) h = ground (arith, text_eq_refl k, text_eq_refl j)
