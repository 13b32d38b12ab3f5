-- ===== src/Controller/Seed.antt =====
-- The start of the controller: enqueueExisting of controller/internal/controller/watch.go.
use flow_pipe.Prelude.{ℕ, ◌≡◌, refl, ap, ◌∙◌, true, some, inl, inr, List, [], ◌∷◌, arith}
use flow_pipe.Text.{Text, text_eq_iff}
use flow_pipe.Text.FilePath.Laws.{IsPlain}
use flow_pipe.Proto.{FlowSpec, Flow}
use flow_pipe.Remote.{Result, ok, err, World, quiet}
use flow_pipe.Backend.{Backend, StoreError}
use flow_pipe.Controller.RateLimiting.{RateLimiting}
use flow_pipe.Controller.Queue.{MemoryQueue, add}
use flow_pipe.Controller.Flows.{list_flows, get_active_flow}
use flow_pipe.Controller.Flows.Listing.{Listed, list_flows-finds}

module _ (Q : RateLimiting) where
  unfoldable pub add_listed : ℕ → List Flow → MemoryQueue Q → MemoryQueue Q
  add_listed now [] m = m
  add_listed now (f ∷ flows) m = add_listed now flows (add Q now f.name m)

  opened-add_listed :
      (now : ℕ) (flows : List Flow) (m : MemoryQueue Q)
      → Q.is_open (add_listed now flows m).q ≡ Q.is_open m.q
  unfolding add_listed add
  opened-add_listed now [] m = refl
  opened-add_listed now (f ∷ flows) m =
      opened-add_listed now flows (add Q now f.name m) ∙ Q.is_open-add f.name m.q

  waits-add_listed :
      (now : ℕ) (n : Text) (flows : List Flow) (m : MemoryQueue Q)
      → Q.is_open m.q ≡ true
      → Q.waits m.q n ≡ true
      → Q.waits (add_listed now flows m).q n ≡ true
  unfolding add_listed add
  waits-add_listed now n [] m o h = h
  waits-add_listed now n (f ∷ flows) m o h =
      waits-add_listed now n flows (add Q now f.name m) (Q.is_open-add f.name m.q ∙ o)
        (Q.waits-add f.name m.q n o ∙ ground arith)

  Listed-waits :
      (now : ℕ) (n : Text) (flows : List Flow) (m : MemoryQueue Q)
      → Q.is_open m.q ≡ true
      → Listed n flows
      → Q.waits (add_listed now flows m).q n ≡ true
  unfolding add_listed add
  Listed-waits now n [] m o h = elim h [ ]
  Listed-waits now n (f ∷ flows) m o (inl e) =
      waits-add_listed now n flows (add Q now f.name m) (Q.is_open-add f.name m.q ∙ o)
        (Q.waits-add f.name m.q n o ∙ ground (arith, text_eq_iff f.name n))
  Listed-waits now n (f ∷ flows) m o (inr h) =
      Listed-waits now n flows (add Q now f.name m) (Q.is_open-add f.name m.q ∙ o) h

module _ (Q : RateLimiting) (B : Backend) where
  abbrev pub seed :
      ℕ
      → Result StoreError (List Flow) × World B.etcd.Server
      → MemoryQueue Q
      → (Result StoreError Unit × World B.etcd.Server) × MemoryQueue Q
  seed now (ok flows, w) m = ((ok tt, w), add_listed Q now flows m)
  seed now (err e, w) m = ((err e, w), m)

  -- enqueueExisting
  unfoldable pub enqueue_existing :
      ℕ
      → World B.etcd.Server
      → MemoryQueue Q
      → (Result StoreError Unit × World B.etcd.Server) × MemoryQueue Q
  enqueue_existing now w m = seed now (list_flows B w) m

  -- At the start of the controller, with no network fault and an open queue, every flow with a plain
  -- name that is stored with its active spec waits in the queue, and the start succeeds.
  pub enqueue_existing-waits :
      (now : ℕ) (s : B.etcd.Server) (m : MemoryQueue Q) (n : Text) (spec : FlowSpec) (v : ℕ)
      (w : World B.etcd.Server)
      → IsPlain n
      → Q.is_open m.q ≡ true
      → get_active_flow B n (quiet s) ≡ (ok (some spec, v), w)
      → ((enqueue_existing now (quiet s) m).0 ≡ (ok tt, quiet s))
        × (Q.waits (enqueue_existing now (quiet s) m).1.q n ≡ true)
  unfolding enqueue_existing
  enqueue_existing-waits now s m n spec v w pn o e =
      let found = list_flows-finds B s n spec v w pn e in
      (
        ap (λ r. (seed now r m).0) found.1,
        ap (λ r. Q.waits (seed now r m).1.q n) found.1 ∙ Listed-waits Q now n found.0 m o found.2,
      )
