-- ===== src/Api/Service/Catalog/Represents.antt =====
-- When etcd holds a catalogue, and that the reads of the service show it.
use flow_pipe.Prelude.{ℕ, ◌<◌, ◌≡◌, refl, ap, ◌∙◌, Option, none, some}
use flow_pipe.Text.{Text}
use flow_pipe.Text.Decimal.{parse_uint, u64_limit}
use flow_pipe.Text.FilePath.Laws.{IsPlain}
use flow_pipe.Proto.{FlowSpec, FlowStatus}
use flow_pipe.Remote.{ok, err, quiet, ◌>>=◌}
use flow_pipe.Backend.{Backend, get_key, spec_missing}
use flow_pipe.Api.Keys.{active_key, version_spec_key, status_key}
use flow_pipe.Api.Flows.{get_flow, get_flow_status}
use flow_pipe.Api.Flows.Read.{decode_stored, get_flow-stored, get_flow-missing}
use flow_pipe.Api.Service.Catalog.{Catalog, look_up, shown, shown_spec}

-- A key is absent, or holds an encoding of the value.
abbrev pub ReadsAs : {A : Type 0} → (Text → Option A) → Option Text → Option A → Type 0
ReadsAs decode none none = Unit
ReadsAs decode none (some a) = ⊥
ReadsAs decode (some bytes) none = ⊥
ReadsAs decode (some bytes) (some a) = decode bytes ≡ some a

module _ (B : Backend) where
  pub record Represents (s : B.etcd.Server) (c : Catalog) : Type 0 where
    pub active_is :
        (n : Text) → IsPlain n → ReadsAs parse_uint (B.etcd.get s (active_key n)) (c n).active
    pub bounded : (n : Text) (v : ℕ) → IsPlain n → (c n).active ≡ some v → v < u64_limit
    pub spec_is :
        (n : Text) (v : ℕ)
        → IsPlain n
        → v < u64_limit
        → ReadsAs B.specs.unmarshal (B.etcd.get s (version_spec_key n v)) ((c n).spec_of v)
    pub status_is :
        (n : Text)
        → IsPlain n
        → ReadsAs B.statuses.unmarshal (B.etcd.get s (status_key n)) (c n).status

  decode_stored-ReadsAs :
      (o : Option Text) (st : Option FlowStatus)
      → ReadsAs B.statuses.unmarshal o st
      → decode_stored B o ≡ st
  decode_stored-ReadsAs none none h = refl
  decode_stored-ReadsAs none (some st) h = absurd h
  decode_stored-ReadsAs (some b) none h = absurd h
  decode_stored-ReadsAs (some b) (some st) h = h

  get_flow-spec_missing :
      (name : Text) (s : B.etcd.Server) (a : Text) (v : ℕ)
      → B.etcd.get s (active_key name) ≡ some a
      → parse_uint a ≡ some v
      → B.etcd.get s (version_spec_key name v) ≡ none
      → get_flow B name (quiet s) ≡ (err (spec_missing name v), quiet s)
  unfolding ◌>>=◌ get_flow get_key
  get_flow-spec_missing name s a v ha hp hb = rw (ha, hp, hb)

  module _ {s : B.etcd.Server} {c : Catalog} (rep : Represents s c) {n : Text}
      (plain : IsPlain n) where
    shows_spec :
        (a : Text) (v : ℕ) (stored : Option Text) (spec : Option FlowSpec)
        → B.etcd.get s (active_key n) ≡ some a
        → parse_uint a ≡ some v
        → B.etcd.get s (version_spec_key n v) ≡ stored
        → ReadsAs B.specs.unmarshal stored spec
        → get_flow B n (quiet s) ≡ (shown_spec n v (c n).status spec, quiet s)
    shows_spec a v none none ha hp hb h = get_flow-spec_missing n s a v ha hp hb
    shows_spec a v none (some spec) ha hp hb h = absurd h
    shows_spec a v (some bytes) none ha hp hb h = absurd h
    shows_spec a v (some bytes) (some spec) ha hp hb h =
        get_flow-stored B n s a v bytes spec ha hp hb h
        ∙ ap (λ st. (shown_spec n v st (some spec), quiet s))
            (decode_stored-ReadsAs (B.etcd.get s (status_key n)) (c n).status
              (rep.status_is n plain))

    shows :
        (found : Option Text) (active : Option ℕ)
        → B.etcd.get s (active_key n) ≡ found
        → (c n).active ≡ active
        → ReadsAs parse_uint found active
        → get_flow B n (quiet s) ≡ (shown n (c n) active, quiet s)
    shows none none ha hc h = get_flow-missing B n s ha
    shows none (some v) ha hc h = absurd h
    shows (some a) none ha hc h = absurd h
    shows (some a) (some v) ha hc h =
        shows_spec a v (B.etcd.get s (version_spec_key n v)) ((c n).spec_of v) ha h refl
          (rep.spec_is n v plain (rep.bounded n v plain hc))

    pub get_flow-look_up : get_flow B n (quiet s) ≡ (look_up n c, quiet s)
    get_flow-look_up =
        shows (B.etcd.get s (active_key n)) (c n).active refl refl (rep.active_is n plain)

    status_shows :
        (found : Option Text) (st : Option FlowStatus)
        → B.etcd.get s (status_key n) ≡ found
        → ReadsAs B.statuses.unmarshal found st
        → get_flow_status B n (quiet s) ≡ (ok st, quiet s)
    unfolding ◌>>=◌ get_flow_status get_key
    status_shows none none e h = rw e
    status_shows none (some st) e h = absurd h
    status_shows (some b) none e h = absurd h
    status_shows (some b) (some st) e h = rw (e, h)

    pub get_flow_status-Entry : get_flow_status B n (quiet s) ≡ (ok (c n).status, quiet s)
    get_flow_status-Entry =
        status_shows (B.etcd.get s (status_key n)) (c n).status refl (rep.status_is n plain)
