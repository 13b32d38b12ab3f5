-- ===== src/Controller/Queue.antt =====
-- MemoryQueue of controller/internal/controller/workqueue_memory.go. Its map of times is a function,
-- and `now` is the clock's reading; time.Since is a difference of readings. A Get that would block is
-- `none`, like one of a queue that is shut and empty.
pub mod Times
use flow_pipe.Prelude.{ℕ, ◌-◌, Bool, true, false, Option, none, some, if◌then◌else◌}
use flow_pipe.Text.{Text, text_eq}
use flow_pipe.Controller.RateLimiting.{RateLimiting}

module _ (Q : RateLimiting) where
  pub record MemoryQueue : Type 0 where
    pub q : Q.Queue
    pub enqueued : Text → Option ℕ

  -- markEnqueued and clearEnqueued
  abbrev pub mark_enqueued : ℕ → Text → (Text → Option ℕ) → Text → Option ℕ
  mark_enqueued now k times j = if text_eq k j then some now else times j

  abbrev pub clear_enqueued : Text → (Text → Option ℕ) → Text → Option ℕ
  clear_enqueued k times j = if text_eq k j then none else times j

  abbrev pub lag_since : ℕ → Option ℕ → ℕ
  lag_since now none = 0
  lag_since now (some at_time) = now - at_time

  -- Add
  unfoldable pub add : ℕ → Text → MemoryQueue → MemoryQueue
  add now k m = record { q = Q.add k m.q; enqueued = mark_enqueued now k m.enqueued }

  abbrev pub taken : ℕ → MemoryQueue → Option (Text × Q.Queue) → Option ((Text × ℕ) × MemoryQueue)
  taken now m none = none
  taken now m (some (k, q)) =
      some (
        (k, lag_since now (m.enqueued k)),
        record { q = q; enqueued = clear_enqueued k m.enqueued },
      )

  -- Get, with dequeueLag
  unfoldable pub get : ℕ → MemoryQueue → Option ((Text × ℕ) × MemoryQueue)
  get now m = taken now m (Q.get m.q)

  -- Forget
  unfoldable pub forget : Text → MemoryQueue → MemoryQueue
  forget k m = record { q = Q.done k (Q.forget k m.q); enqueued = clear_enqueued k m.enqueued }

  -- Retry
  unfoldable pub retry : ℕ → Text → MemoryQueue → MemoryQueue
  retry now k m = record {
    q = Q.done k (Q.add_rate_limited k m.q);
    enqueued = mark_enqueued now k m.enqueued;
  }

  -- Len and Shutdown
  unfoldable pub len : MemoryQueue → ℕ
  len m = Q.len m.q

  unfoldable pub shutdown : MemoryQueue → MemoryQueue
  shutdown m = record m { q = Q.shut_down m.q }
