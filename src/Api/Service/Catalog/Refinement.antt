-- ===== src/Api/Service/Catalog/Refinement.antt =====
-- The flow service over etcd does what the catalogue says.
use flow_pipe.Prelude.{
  ℕ, ◌<◌, ◌≡◌, refl, ap, ◌∙◌, subst, Bool, true, false, Option, none, some, List, [], ◌∷◌, All,
  arith,
}
use flow_pipe.Text.{Text}
use flow_pipe.Text.Decimal.{format_uint, parse_uint, u64_limit}
use flow_pipe.Text.FilePath.Laws.{IsPlain}
use flow_pipe.Proto.{FlowSpec}
use flow_pipe.Remote.{Result, ok, err, World, quiet, ◌>>=◌, pure, raise, continue}
use flow_pipe.Backend.{Backend, Store, StoreError, marshal_failed, delete_keys}
use flow_pipe.Api.Keys.{flow_prefix, active_key, version_spec_key}
use flow_pipe.Api.Flows
use flow_pipe.Api.Flows.{next_version, prepare_version, commit_version, create_new_version}
use flow_pipe.Api.Flows.Created.{created, create_new_version_succeeds}
use flow_pipe.Api.Flows.Rollback.{rollback_flow-quiet, rollback_flow_missing}
use flow_pipe.Api.Flows.Write.{create_new_version-quiet}
use flow_pipe.Api.Service.{FlowRequest, FlowResponse, flow, serve}
use flow_pipe.Api.Service.Catalog.{
  Catalog, next_number, look_up, add_version, roll_back, answer, fulfil, fulfil_all,
}
use flow_pipe.Api.Service.Catalog.Represents.{
  ReadsAs, Represents, get_flow-look_up, get_flow_status-Entry,
}
use flow_pipe.Api.Service.Catalog.Writes.{
  with_version, added-Represents, pointed-Represents, removed-Represents,
}

next_version-next_number :
    (found : Option Text) (active : Option ℕ)
    → ReadsAs parse_uint found active
    → next_version found ≡ ok (next_number active)
unfolding next_version
next_version-next_number none none h = refl
next_version-next_number none (some v) h = absurd h
next_version-next_number (some a) none h = absurd h
next_version-next_number (some a) (some v) h = rw (next_version, h)

abbrev HasPlainName : Option FlowSpec → Type 0
HasPlainName none = Unit
HasPlainName (some spec) = IsPlain spec.name

-- The request is about a plain name and a uint64 version, and is not ListFlows.
abbrev pub IsCatalogued : FlowRequest → Type 0
IsCatalogued (FlowRequest.create_flow spec) = HasPlainName spec
IsCatalogued (FlowRequest.update_flow name spec) = IsPlain name
IsCatalogued (FlowRequest.get_flow name) = IsPlain name
IsCatalogued FlowRequest.list_flows = ⊥
IsCatalogued (FlowRequest.delete_flow name) = IsPlain name
IsCatalogued (FlowRequest.get_flow_status name) = IsPlain name
IsCatalogued (FlowRequest.rollback_flow name v) = IsPlain name × (v < u64_limit)

module _ (B : Backend) where
  abbrev has_encoding : Option Text → Bool
  has_encoding none = false
  has_encoding (some bytes) = true

  abbrev pub encodes : FlowSpec → Bool
  encodes spec = has_encoding (B.specs.marshal spec)

  -- On a network without faults the block returns the answer and leaves a server with the catalogue.
  record Yields {A : Type 0} (m : Store B A) (s : B.etcd.Server)
      (out : Result StoreError A × Catalog) : Type 0 where
    after : B.etcd.Server
    runs : m (quiet s) ≡ (out.0, quiet after)
    holds : Represents B after out.1

  unencoded :
      (name : Text) (spec : FlowSpec) (found : Option Text) (next : ℕ)
      → next_version found ≡ ok next
      → B.specs.marshal (record spec { version = next }) ≡ none
      → prepare_version B name spec found ≡ err marshal_failed
  unfolding prepare_version
  unencoded name spec found next is_next e = ground (arith, is_next, e)

  module _ {s : B.etcd.Server} where
    Yields-pure :
        {A : Type 0} (m : Store B A) (f : A → FlowResponse) (out : Result StoreError A × Catalog)
        → Yields m s out
        → Yields (m >>= λ a. pure (f a)) s (answer f out)
    unfolding ◌>>=◌ pure
    Yields-pure m f (ok a, c) y = record { after = y.after; runs = rw y.runs; holds = y.holds }
    Yields-pure m f (err e, c) y = record { after = y.after; runs = rw y.runs; holds = y.holds }

    module _ {c : Catalog} (rep : Represents B s c) where
      look_up-Yields : (n : Text) → IsPlain n → Yields (Flows.get_flow B n) s (look_up n c, c)
      look_up-Yields n plain = record {
        after = s;
        runs = get_flow-look_up B rep plain;
        holds = rep;
      }

      add_version-Yields :
          (name : Text) (spec : FlowSpec)
          → IsPlain name
          → Yields
              (create_new_version B name spec)
              s
              (add_version encodes name spec (next_number (c name).active) c)
      add_version-Yields name spec plain =
          by_encoding (B.specs.marshal (record spec { version = next })) refl
        where
          next : ℕ
          next = next_number (c name).active

          is_next : next_version (B.etcd.get s (active_key name)) ≡ ok next
          is_next = next_version-next_number _ _ (rep.active_is name plain)

          by_encoding :
              (o : Option Text)
              → B.specs.marshal (record spec { version = next }) ≡ o
              → Yields (create_new_version B name spec) s (add_version encodes name spec next c)
          by_encoding none e = rw e (record {
            after = s;
            runs =
                create_new_version-quiet B name spec s
                ∙ ap (λ r. continue r (commit_version B name) (quiet s))
                    (unencoded name spec (B.etcd.get s (active_key name)) next is_next e);
            holds = rep;
          })
          by_encoding (some bytes) e =
              let done = create_new_version_succeeds B name spec s next bytes is_next e in
              let number : done.2.next ≡ next = cc (done.2.is_next, is_next) in
              rw e (record {
                after = done.0.server;
                runs = done.1 ∙ ap (λ w. (ok (created name next spec), w)) done.2.net;
                holds =
                    subst
                      (λ v.
                        Represents B done.0.server
                          (with_version B rep plain v (record spec { version = v })))
                      number (added-Represents B rep plain done.2);
              })

      roll_back-Yields :
          (name : Text) (v : ℕ)
          → IsPlain name
          → v < u64_limit
          → Yields (Flows.rollback_flow B name v) s (roll_back name v c ((c name).spec_of v))
      roll_back-Yields name v plain bv =
          by_spec (B.etcd.get s (version_spec_key name v)) ((c name).spec_of v) refl
            (rep.spec_is name v plain bv)
        where
          by_spec :
              (found : Option Text) (spec : Option FlowSpec)
              → B.etcd.get s (version_spec_key name v) ≡ found
              → ReadsAs B.specs.unmarshal found spec
              → Yields (Flows.rollback_flow B name v) s (roll_back name v c spec)
          by_spec none none e h = record {
            after = s;
            runs = rollback_flow_missing B name v s e;
            holds = rep;
          }
          by_spec none (some spec) e h = absurd h
          by_spec (some bytes) none e h = absurd h
          by_spec (some bytes) (some spec) e h =
              let pointed = pointed-Represents B rep plain v bv in
              record {
                after = B.etcd.put (active_key name) (format_uint v) s;
                runs = rollback_flow-quiet B name v s bytes e ∙ get_flow-look_up B pointed plain;
                holds = pointed;
              }

      fulfil-Yields : (r : FlowRequest) → IsCatalogued r → Yields (serve B r) s (fulfil encodes r c)
      unfolding serve fulfil Flows.create_flow Flows.update_flow Flows.delete_flow delete_keys ◌>>=◌
          pure raise
      fulfil-Yields (FlowRequest.create_flow none) h = record {
        after = s;
        runs = refl;
        holds = rep;
      }
      fulfil-Yields (FlowRequest.create_flow (some spec)) h =
          rw h.nonempty (Yields-pure _ flow _ (add_version-Yields spec.name spec h))
      fulfil-Yields (FlowRequest.update_flow name none) h = record {
        after = s;
        runs = refl;
        holds = rep;
      }
      fulfil-Yields (FlowRequest.update_flow name (some spec)) h =
          Yields-pure (create_new_version B name (record spec { name = name })) flow _
            (add_version-Yields name (record spec { name = name }) h)
      fulfil-Yields (FlowRequest.get_flow name) h =
          Yields-pure (Flows.get_flow B name) flow _ (look_up-Yields name h)
      fulfil-Yields FlowRequest.list_flows h = absurd h
      fulfil-Yields (FlowRequest.delete_flow name) h = record {
        after = B.etcd.delete_prefix (flow_prefix name) s;
        runs = refl;
        holds = removed-Represents B rep h;
      }
      fulfil-Yields (FlowRequest.get_flow_status name) h = record {
        after = s;
        runs = rw (get_flow_status-Entry B rep h);
        holds = rep;
      }
      fulfil-Yields (FlowRequest.rollback_flow name v) h =
          Yields-pure (Flows.rollback_flow B name v) flow _ (roll_back-Yields name v h.0 h.1)

  -- The answers that the service gives in a session, one request after another.
  unfoldable pub answers :
      List FlowRequest → World B.etcd.Server → List (Result StoreError FlowResponse)
  answers [] w = []
  answers (r ∷ rs) w = (serve B r w).0 ∷ answers rs (serve B r w).1

  -- On a network without faults, the flow service over etcd is the catalogue that it holds: if etcd
  -- holds a catalogue, then in any session of requests about plain names and uint64 versions, other than
  -- ListFlows, each request is answered (with a flow, a status, or an error) as the catalogue
  -- answers it.
  pub service_refines_catalog :
      (rs : List FlowRequest) (s : B.etcd.Server) (c : Catalog)
      → All IsCatalogued rs
      → Represents B s c
      → answers rs (quiet s) ≡ fulfil_all encodes rs c
  unfolding answers fulfil_all
  service_refines_catalog [] s c h rep = refl
  service_refines_catalog (r ∷ rs) s c h rep =
      let y = fulfil-Yields rep r h.0 in
      rw y.runs (
        ap (λ l. (fulfil encodes r c).0 ∷ l)
          (service_refines_catalog rs y.after (fulfil encodes r c).1 h.1 y.holds))
