-- ===== src/Controller/RateLimiting.antt =====
-- The rate-limited queue of k8s.io/client-go/util/workqueue, which the controller's queue calls: an
-- interface with its documented behaviour. An item waits from the moment it is added, at once or after
-- a delay, until it is handed out; it is in work from then until Done; and no item is handed out while
-- it is in work. An item that is handed out may wait still, where it was added both at once and after a
-- delay; but once the queue is shut down, its delayed items never come up. An item that is added to an open queue
-- in which nothing waits is handed out next. Once it is shut down, it takes no more items, and hands out
-- those that wait.
pub mod Instance
use flow_pipe.Prelude.{ℕ, ◌≡◌, Bool, true, false, Option, none, some, if◌then◌else◌}
use flow_pipe.Text.{Text, text_eq}

pub record RateLimiting : Type 1 where
  pub Queue : Type 0
  pub waits : Queue → Text → Bool
  pub works : Queue → Text → Bool
  pub is_open : Queue → Bool
  pub len : Queue → ℕ
  pub add : Text → Queue → Queue
  pub add_rate_limited : Text → Queue → Queue
  pub forget : Text → Queue → Queue
  pub done : Text → Queue → Queue
  pub get : Queue → Option (Text × Queue)
  pub shut_down : Queue → Queue
  pub waits-add :
      (k : Text) (q : Queue) (j : Text)
      → is_open q ≡ true
      → waits (add k q) j ≡ (if text_eq k j then true else waits q j)
  pub waits-add_rate_limited :
      (k : Text) (q : Queue) (j : Text)
      → is_open q ≡ true
      → waits (add_rate_limited k q) j ≡ (if text_eq k j then true else waits q j)
  pub waits-forget : (k : Text) (q : Queue) (j : Text) → waits (forget k q) j ≡ waits q j
  pub waits-done : (k : Text) (q : Queue) (j : Text) → waits (done k q) j ≡ waits q j
  pub waits-get :
      (q : Queue) (k : Text) (q' : Queue) (j : Text)
      → get q ≡ some (k, q')
      → text_eq k j ≡ false
      → waits q' j ≡ waits q j
  pub waits-get_closed :
      (q : Queue) (k : Text) (q' : Queue)
      → get q ≡ some (k, q')
      → is_open q ≡ false
      → waits q' k ≡ false
  pub works-add : (k : Text) (q : Queue) (j : Text) → works (add k q) j ≡ works q j
  pub works-add_rate_limited :
      (k : Text) (q : Queue) (j : Text) → works (add_rate_limited k q) j ≡ works q j
  pub works-forget : (k : Text) (q : Queue) (j : Text) → works (forget k q) j ≡ works q j
  pub works-done :
      (k : Text) (q : Queue) (j : Text)
      → works (done k q) j ≡ (if text_eq k j then false else works q j)
  pub works-get :
      (q : Queue) (k : Text) (q' : Queue) (j : Text)
      → get q ≡ some (k, q')
      → works q' j ≡ (if text_eq k j then true else works q j)
  pub get-waits : (q : Queue) (k : Text) (q' : Queue) → get q ≡ some (k, q') → waits q k ≡ true
  pub get-idle : (q : Queue) (k : Text) (q' : Queue) → get q ≡ some (k, q') → works q k ≡ false
  pub is_open-add : (k : Text) (q : Queue) → is_open (add k q) ≡ is_open q
  pub is_open-add_rate_limited : (k : Text) (q : Queue) → is_open (add_rate_limited k q) ≡ is_open q
  pub is_open-forget : (k : Text) (q : Queue) → is_open (forget k q) ≡ is_open q
  pub is_open-done : (k : Text) (q : Queue) → is_open (done k q) ≡ is_open q
  pub is_open-get :
      (q : Queue) (k : Text) (q' : Queue) → get q ≡ some (k, q') → is_open q' ≡ is_open q
  pub get-add :
      (k : Text) (q : Queue)
      → is_open q ≡ true
      → works q k ≡ false
      → ((j : Text) → waits q j ≡ false)
      → (q' : Queue) × (get (add k q) ≡ some (k, q'))
  pub waits-add_closed :
      (k : Text) (q : Queue) (j : Text) → is_open q ≡ false → waits (add k q) j ≡ waits q j
  pub waits-add_rate_limited_closed :
      (k : Text) (q : Queue) (j : Text)
      → is_open q ≡ false
      → waits (add_rate_limited k q) j ≡ waits q j
  pub waits-shut_down : (q : Queue) (j : Text) → waits (shut_down q) j ≡ true → waits q j ≡ true
  pub is_open-shut_down : (q : Queue) → is_open (shut_down q) ≡ false
