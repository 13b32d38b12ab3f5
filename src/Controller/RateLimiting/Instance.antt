-- ===== src/Controller/RateLimiting/Instance.antt =====
-- A concrete queue that meets the assumptions, two lists of items. The theorems' examples run on it.
use flow_pipe.Prelude.{
  ◌≡◌, refl, Bool, true, false, Option, none, some, List, [], ◌∷◌, length, arith, if◌then◌else◌,
}
use flow_pipe.Text.{Text, text_eq, text_eq_iff, text_eq_refl}
use flow_pipe.Text.Names.{contains}
use flow_pipe.Controller.RateLimiting.{RateLimiting}

pub record Items : Type 0 where
  pub dirty : List Text
  pub processing : List Text
  pub opened : Bool

abbrev pub no_items : Items
no_items = record { dirty = []; processing = []; opened = true }

unfoldable pub without_item : Text → List Text → List Text
without_item k [] = []
without_item k (j ∷ js) = let rest = without_item k js in if text_eq j k then rest else j ∷ rest

pub contains-without_item :
    (k j : Text) (js : List Text)
    → contains (without_item k js) j ≡ (if text_eq k j then false else contains js j)
unfolding without_item
contains-without_item k j [] = ground arith
contains-without_item k j (i ∷ js) =
    ground (arith, contains-without_item k j js, text_eq_iff k j, text_eq_iff i k, text_eq_iff i j)

-- The first item that is not in work.
unfoldable pub first_idle : List Text → List Text → Option Text
first_idle processing [] = none
first_idle processing (k ∷ ks) =
    let rest = first_idle processing ks in if contains processing k then rest else some k

first_idle-IsIdle :
    (processing ks : List Text) (k : Text)
    → first_idle processing ks ≡ some k
    → contains processing k ≡ false
unfolding first_idle
first_idle-IsIdle processing [] k e = ground arith
first_idle-IsIdle processing (j ∷ ks) k e = ground (arith, first_idle-IsIdle processing ks k)

first_idle-waits :
    (processing ks : List Text) (k : Text)
    → first_idle processing ks ≡ some k
    → contains ks k ≡ true
unfolding first_idle
first_idle-waits processing [] k e = ground arith
first_idle-waits processing (j ∷ ks) k e =
    ground (arith, first_idle-waits processing ks k, text_eq_refl j)

unfoldable pub push : Text → Items → Items
push k q = if q.opened then record q { dirty = k ∷ q.dirty } else q

abbrev take_item : Items → Option Text → Option (Text × Items)
take_item q none = none
take_item q (some k) =
    some (k, record q { dirty = without_item k q.dirty; processing = k ∷ q.processing })

unfoldable pub take : Items → Option (Text × Items)
take q = take_item q (first_idle q.processing q.dirty)

abbrev finish : Text → Items → Items
finish k q = record q { processing = without_item k q.processing }

pub push-dirty :
    (k : Text) (q : Items) (j : Text)
    → q.opened ≡ true
    → contains (push k q).dirty j ≡ (if text_eq k j then true else contains q.dirty j)
unfolding push
push-dirty k q j e = ground arith

pub push-closed :
    (k : Text) (q : Items) (j : Text)
    → q.opened ≡ false
    → contains (push k q).dirty j ≡ contains q.dirty j
unfolding push
push-closed k q j e = ground arith

pub push-processing :
    (k : Text) (q : Items) (j : Text) → contains (push k q).processing j ≡ contains q.processing j
unfolding push
push-processing k q j = ground arith

pub push-opened : (k : Text) (q : Items) → (push k q).opened ≡ q.opened
unfolding push
push-opened k q = ground arith

pub take-dirty :
    (q : Items) (k : Text) (r : Items) (j : Text)
    → take q ≡ some (k, r)
    → text_eq k j ≡ false
    → contains r.dirty j ≡ contains q.dirty j
unfolding take
take-dirty q k r j e d = ground (arith, contains-without_item k j q.dirty)

pub take-dirty_self :
    (q : Items) (k : Text) (r : Items)
    → take q ≡ some (k, r)
    → q.opened ≡ false
    → contains r.dirty k ≡ false
unfolding take
take-dirty_self q k r e h = ground (arith, contains-without_item k k q.dirty, text_eq_refl k)

pub take-processing :
    (q : Items) (k : Text) (r : Items) (j : Text)
    → take q ≡ some (k, r)
    → contains r.processing j ≡ (if text_eq k j then true else contains q.processing j)
unfolding take
take-processing q k r j e = ground arith

pub take-IsIdle :
    (q : Items) (k : Text) (r : Items) → take q ≡ some (k, r) → contains q.processing k ≡ false
unfolding take
take-IsIdle q k r e = ground (arith, first_idle-IsIdle q.processing q.dirty k)

pub take-waits :
    (q : Items) (k : Text) (r : Items) → take q ≡ some (k, r) → contains q.dirty k ≡ true
unfolding take
take-waits q k r e = ground (arith, first_idle-waits q.processing q.dirty k)

pub take-opened : (q : Items) (k : Text) (r : Items) → take q ≡ some (k, r) → r.opened ≡ q.opened
unfolding take
take-opened q k r e = ground arith

pub take-push :
    (k : Text) (q : Items)
    → q.opened ≡ true
    → contains q.processing k ≡ false
    → ((j : Text) → contains q.dirty j ≡ false)
    → (r : Items) × (take (push k q) ≡ some (k, r))
unfolding take push first_idle
take-push k q o idle h = (
  record q { dirty = without_item k (k ∷ q.dirty); processing = k ∷ q.processing },
  rw (o, idle) refl,
)

abbrev pub items : RateLimiting
items = record {
  Queue = Items;
  waits = λ q j. contains q.dirty j;
  works = λ q j. contains q.processing j;
  is_open = λ q. q.opened;
  len = λ q. length q.dirty;
  add = push;
  add_rate_limited = push;
  forget = λ k q. q;
  done = finish;
  get = take;
  shut_down = λ q. record q { opened = false };
  waits-add = push-dirty;
  waits-add_rate_limited = push-dirty;
  waits-forget = λ k q j. refl;
  waits-done = λ k q j. refl;
  waits-get = take-dirty;
  waits-get_closed = take-dirty_self;
  works-add = push-processing;
  works-add_rate_limited = push-processing;
  works-forget = λ k q j. refl;
  works-done = λ k q j. contains-without_item k j q.processing;
  works-get = take-processing;
  get-waits = take-waits;
  get-idle = take-IsIdle;
  is_open-add = push-opened;
  is_open-add_rate_limited = push-opened;
  is_open-forget = λ k q. refl;
  is_open-done = λ k q. refl;
  is_open-get = take-opened;
  get-add = take-push;
  waits-add_closed = push-closed;
  waits-add_rate_limited_closed = push-closed;
  waits-shut_down = λ q j h. h;
  is_open-shut_down = λ q. refl;
}
