-- ===== src/Api/Flows/Created.antt =====
-- A version that was created is the one that is read back, and concurrent writers exclude each other.
use flow_pipe.Prelude.{ℕ, ◌≡◌, refl, subst, ap, sym, ◌∙◌, none, some, [], ◌∷◌, arith, if◌then◌else◌}
use flow_pipe.Text.{Text, text_eq, text_eq_refl}
use flow_pipe.Text.Decimal.{format_uint, parse_uint-format_uint}
use flow_pipe.Text.FilePath.Laws.{IsPlain}
use flow_pipe.Proto.{FlowSpec, Flow}
use flow_pipe.Remote.{Result, ok, err, World, quiet, continue}
use flow_pipe.Backend.{Backend, StoreError}
use flow_pipe.Api.Keys.{active_key, version_spec_key, status_key}
use flow_pipe.Api.Keys.Distinct.{active-eq-version, active-eq-status, version-eq-status}
use flow_pipe.Api.Flows.{
  next_version, unchanged, Prepared, prepare_version, commit_version, create_new_version,
  update_flow, get_flow,
}
use flow_pipe.Api.Flows.Read.{decode_stored, stored_status, get_flow-stored}
use flow_pipe.Api.Flows.Write.{
  next_version-bound, prepare_version-Prepares, unchanged-passes, commit_version-passes,
  create_new_version-quiet,
}

abbrev pub created : Text → ℕ → FlowSpec → Flow
created name next spec = record {
  name = name;
  version = next;
  spec = some (record spec { version = next });
  status = none;
}

module _ (B : Backend) where
  -- A creation that succeeded on a network without faults: the version that it wrote, and what
  -- every key holds afterwards.
  pub record Wrote (name : Text) (spec : FlowSpec) (s : B.etcd.Server) (f : Flow)
      (w : World B.etcd.Server) : Type 0 where
    pub next : ℕ
    pub bytes : Text
    pub is_next : next_version (B.etcd.get s (active_key name)) ≡ ok next
    pub encodes : B.specs.marshal (record spec { version = next }) ≡ some bytes
    pub result : f ≡ created name next spec
    pub net : w ≡ quiet w.server
    pub contents :
        (j : Text)
        → B.etcd.get w.server j ≡ (
            if text_eq (active_key name) j
            then some (format_uint next)
            else if text_eq (version_spec_key name next) j
            then some bytes
            else B.etcd.get s j)

  literal : (name : Text) (spec : FlowSpec) (s : B.etcd.Server) (next : ℕ) (bytes : Text) → Prepared
  literal name spec s next bytes = record {
    compare = unchanged name (B.etcd.get s (active_key name));
    puts = (version_spec_key name next, bytes) ∷ (active_key name, format_uint next) ∷ [];
    spec = record spec { version = next };
  }

  literal-Wrote :
      (name : Text) (spec : FlowSpec) (s : B.etcd.Server) (next : ℕ) (bytes : Text)
      → next_version (B.etcd.get s (active_key name)) ≡ ok next
      → B.specs.marshal (record spec { version = next }) ≡ some bytes
      → {f : Flow} {w : World B.etcd.Server}
      → commit_version B name (literal name spec s next bytes) (quiet s) ≡ (ok f, w)
      → Wrote name spec s f w
  unfolding literal
  literal-Wrote name spec s next bytes is_next encodes {f} {w} e =
      let p = literal name spec s next bytes in
      let holds = unchanged-passes B name s in
      let done = sym e ∙ commit_version-passes B name p s holds in
      let world : w ≡ quiet (B.etcd.txn p.compare p.puts s).1 = ap (λ x. x.1) done in
      record {
        next = next;
        bytes = bytes;
        is_next = is_next;
        encodes = encodes;
        result = cc (ap (λ x. x.0) done);
        net = rw world;
        contents = λ j. rw world (B.etcd.get-txn p.compare p.puts s j ∙ rw holds);
      }

  pub prepared-Wrote :
      (name : Text) (spec : FlowSpec) (s : B.etcd.Server) (p : Prepared) {f : Flow}
      {w : World B.etcd.Server}
      → prepare_version B name spec (B.etcd.get s (active_key name)) ≡ ok p
      → commit_version B name p (quiet s) ≡ (ok f, w)
      → Wrote name spec s f w
  unfolding literal
  prepared-Wrote name spec s p {f} {w} er h =
      let r = prepare_version-Prepares B name spec (B.etcd.get s (active_key name)) p er in
      literal-Wrote name spec s r.next r.bytes r.is_next r.encodes
        (subst (λ q. commit_version B name q (quiet s) ≡ (ok f, w)) r.is_prepared h)

  pub create_new_version-Wrote :
      (name : Text) (spec : FlowSpec) (s : B.etcd.Server) {f : Flow} {w : World B.etcd.Server}
      → create_new_version B name spec (quiet s) ≡ (ok f, w)
      → Wrote name spec s f w
  create_new_version-Wrote name spec s {f} {w} e =
      cases (prepare_version B name spec (B.etcd.get s (active_key name))) refl
        (sym (create_new_version-quiet B name spec s) ∙ e)
    where
      cases :
          (r : Result StoreError Prepared)
          → prepare_version B name spec (B.etcd.get s (active_key name)) ≡ r
          → continue r (commit_version B name) (quiet s) ≡ (ok f, w)
          → Wrote name spec s f w
      cases (err x) er h = cc (ap (λ x. x.0) h)
      cases (ok p) er h = prepared-Wrote name spec s p er h

  pub active-Wrote :
      {name : Text} {spec : FlowSpec} {s : B.etcd.Server} {f : Flow} {w : World B.etcd.Server}
      (c : Wrote name spec s f w)
      → B.etcd.get w.server (active_key name) ≡ some (format_uint c.next)
  active-Wrote {name} c = rw (c.contents (active_key name), text_eq_refl (active_key name))

  module _ {name : Text} (plain : IsPlain name) {spec : FlowSpec} {s : B.etcd.Server} where
    pub version-Wrote :
        {f : Flow} {w : World B.etcd.Server} (c : Wrote name spec s f w)
        → B.etcd.get w.server (version_spec_key name c.next) ≡ some c.bytes
    version-Wrote c = rw (
      c.contents (version_spec_key name c.next),
      active-eq-version plain plain c.next,
      text_eq_refl (version_spec_key name c.next),
    )

    status-Wrote :
        {f : Flow} {w : World B.etcd.Server} (c : Wrote name spec s f w)
        → stored_status B w.server name ≡ stored_status B s name
    status-Wrote c = ap (decode_stored B) (
        c.contents (status_key name)
        ∙ rw (active-eq-status plain plain, version-eq-status plain plain c.next))

    pub get_flow-Wrote :
        {f : Flow} {w : World B.etcd.Server}
        → Wrote name spec s f w
        → get_flow B name w ≡ (ok (record f { status = stored_status B s name }), w)
    get_flow-Wrote {f} {w} c =
        let bound = next_version-bound (B.etcd.get s (active_key name)) c.next c.is_next in
        rw (c.net, c.result)
          (get_flow-stored B name w.server (format_uint c.next) c.next c.bytes
              (record spec { version = c.next }) (active-Wrote c)
              (parse_uint-format_uint c.next bound) (version-Wrote c)
              (B.specs.unmarshal-marshal _ c.bytes c.encodes)
            ∙ ap (λ st. (ok (record (created name c.next spec) { status = st }), quiet w.server))
                (status-Wrote c))

  -- If UpdateFlow succeeds on a plain flow name with no network fault, GetFlow right after it
  -- succeeds and returns the very flow that UpdateFlow returned, its version and its spec with that
  -- version and that name, with the status that was stored before; it changes nothing.
  pub get_flow-update_flow :
      (name : Text) (spec : FlowSpec) (s : B.etcd.Server) (f : Flow) (w : World B.etcd.Server)
      → IsPlain name
      → update_flow B name (some spec) (quiet s) ≡ (ok f, w)
      → get_flow B name w ≡ (ok (record f { status = stored_status B s name }), w)
  unfolding update_flow
  get_flow-update_flow name spec s f w plain e =
      get_flow-Wrote plain (create_new_version-Wrote name (record spec { name = name }) s e)

  prepare_version-ready :
      (name : Text) (spec : FlowSpec) (s : B.etcd.Server) (next : ℕ) (bytes : Text)
      → next_version (B.etcd.get s (active_key name)) ≡ ok next
      → B.specs.marshal (record spec { version = next }) ≡ some bytes
      → prepare_version B name spec (B.etcd.get s (active_key name))
        ≡ ok (literal name spec s next bytes)
  unfolding prepare_version literal
  prepare_version-ready name spec s next bytes is_next encodes = ground arith

  -- createNewVersion succeeds where the active version can be read and the stamped spec encodes.
  pub create_new_version_succeeds :
      (name : Text) (spec : FlowSpec) (s : B.etcd.Server) (next : ℕ) (bytes : Text)
      → next_version (B.etcd.get s (active_key name)) ≡ ok next
      → B.specs.marshal (record spec { version = next }) ≡ some bytes
      → (w : World B.etcd.Server) × (create_new_version B name spec (quiet s)
          ≡ (ok (created name next spec), w))
        × Wrote name spec s (created name next spec) w
  unfolding literal
  create_new_version_succeeds name spec s next bytes is_next encodes =
      let p = literal name spec s next bytes in
      let committed = commit_version-passes B name p s (unchanged-passes B name s) in
      (
        quiet (B.etcd.txn p.compare p.puts s).1,
        create_new_version-quiet B name spec s
            ∙ ap (λ r. continue r (commit_version B name) (quiet s))
                (prepare_version-ready name spec s next bytes is_next encodes)
            ∙ committed,
        literal-Wrote name spec s next bytes is_next encodes committed,
      )

  -- UpdateFlow succeeds, on a network without faults, whenever the active version can be read and the
  -- spec, with the name and the next version put in, encodes; it returns that version, and stores the
  -- encoded spec under it.
  pub update_flow_succeeds :
      (name : Text) (spec : FlowSpec) (s : B.etcd.Server) (next : ℕ) (bytes : Text)
      → IsPlain name
      → next_version (B.etcd.get s (active_key name)) ≡ ok next
      → B.specs.marshal (record spec { name = name; version = next }) ≡ some bytes
      → (w : World B.etcd.Server) × (update_flow B name (some spec) (quiet s)
          ≡ (ok (created name next (record spec { name = name })), w))
        × (B.etcd.get w.server (version_spec_key name next) ≡ some bytes)
  unfolding update_flow literal literal-Wrote create_new_version_succeeds
  update_flow_succeeds name spec s next bytes plain is_next encodes =
      let c =
        create_new_version_succeeds name (record spec { name = name }) s next bytes is_next
          encodes in
      (c.0, c.1, version-Wrote plain c.2)
