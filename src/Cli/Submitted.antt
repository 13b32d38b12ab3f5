-- ===== src/Cli/Submitted.antt =====
-- What a submit that succeeded has stored.
use flow_pipe.Prelude.{ℕ, ◌≡◌, refl, ap, subst, ◌∙◌, Option, none, some}
use flow_pipe.Text.{Text}
use flow_pipe.Text.FilePath.Laws.{IsPlain}
use flow_pipe.Proto.{FlowSpec, Flow}
use flow_pipe.Remote.{Result, ok, err, World, quiet, continue, pure, lift, ◌>>=◌}
use flow_pipe.Backend.{Backend, StoreError}
use flow_pipe.Specs.Validate.{ValidationError, validate}
use flow_pipe.Specs.Validate.Rules.{IsValid}
use flow_pipe.Specs.Validate.Decision.{validate_iff}
use flow_pipe.Specs.Normalize.{normalize, normalized}
use flow_pipe.Specs.Normalize.Verdict.{normalized-IsValid}
use flow_pipe.Api.Config.{Config}
use flow_pipe.Api.Flows.{create_flow, get_flow}
use flow_pipe.Api.Flows.Created.{created, get_flow-Wrote, create_new_version-Wrote}
use flow_pipe.Api.Flows.Read.{stored_status}
use flow_pipe.Api.Service.{FlowRequest, FlowResponse, serve}
use flow_pipe.Cli.{Surroundings, RootFlags, CliError, call, invalid}
use flow_pipe.Cli.Loader.{load_flow_spec, accepted, checked_spec}
use flow_pipe.Cli.Calls.{call-ok}
use flow_pipe.Cli.Flows.{submit}

module _ (M : Surroundings) (B : Backend) (cfg : Config) (settings : RootFlags) (addr : Text) where
  serve-created :
      (o : Option FlowSpec) (v : World B.etcd.Server) {r : FlowResponse} {w : World B.etcd.Server}
      → serve B (FlowRequest.create_flow o) v ≡ (ok r, w)
      → (f : Flow) × (r ≡ FlowResponse.flow f) × (create_flow B o v ≡ (ok f, w))
  unfolding serve pure ◌>>=◌
  serve-created o v {r} {w} = cases (create_flow B o v)
    where
      cases :
          (x : Result StoreError Flow × World B.etcd.Server)
          → continue x.0 (λ f. pure (FlowResponse.flow f)) x.1 ≡ (ok r, w)
          → (f : Flow) × (r ≡ FlowResponse.flow f) × (x ≡ (ok f, w))
      cases (err e, u) h = cc (ap (λ x. x.0) h)
      cases (ok f, u) h = (f, cc (ap (λ x. x.0) h), ap (λ v. (ok f, v)) (ap (λ x. x.1) h))

  checked-loaded :
      (path : Text) (raw : FlowSpec)
      → load_flow_spec M path ≡ ok raw
      → checked_spec M path ≡ accepted M (normalize (some raw))
  unfolding checked_spec
  checked-loaded path raw loaded =
      ap
        (λ (d : Result CliError FlowSpec). elim d [
          | err e ↦ err e
          | ok spec ↦ accepted M (normalize (some spec))
        ])
        loaded

  -- A submit that succeeded sent the normalized spec, and it is valid.
  submit-ok :
      (path : Text) (raw : FlowSpec) (v : World B.etcd.Server) {r : FlowResponse}
      {w : World B.etcd.Server}
      → load_flow_spec M path ≡ ok raw
      → submit M B cfg settings addr path v ≡ (ok r, w)
      → (validate (normalize (some raw)) ≡ none)
        × (serve B (FlowRequest.create_flow (normalize (some raw))) v ≡ (ok r, w))
  unfolding submit ◌>>=◌ lift
  submit-ok path raw v {r} {w} loaded e = cases (validate (normalize (some raw))) refl (
      subst
        (λ c.
          continue c (λ spec. call M cfg settings addr (serve B (FlowRequest.create_flow spec))) v
          ≡ (ok r, w))
        (checked-loaded path raw loaded) e)
    where
      n : Option FlowSpec
      n = normalize (some raw)

      cases :
          (o : Option ValidationError)
          → validate n ≡ o
          → continue
              (elim o [ none ↦ ok n | some x ↦ err (invalid x) ])
              (λ spec. call M cfg settings addr (serve B (FlowRequest.create_flow spec)))
              v
            ≡ (ok r, w)
          → (validate n ≡ none) × (serve B (FlowRequest.create_flow n) v ≡ (ok r, w))
      cases none eo h = (eo, call-ok M cfg settings addr (serve B (FlowRequest.create_flow n)) v h)
      cases (some x) eo h = cc (ap (λ y. y.0) h)

  -- If submit succeeds on a flow file whose spec has a plain name, and etcd answers every request, then
  -- the spec is valid; the reply is the flow of that name with the normalized spec under the version
  -- that the store has given it; and GetFlow right after returns that flow, with the status that was
  -- stored before.
  pub submit_stores :
      (path : Text) (raw : FlowSpec) (s : B.etcd.Server) (r : FlowResponse)
      (w : World B.etcd.Server)
      → load_flow_spec M path ≡ ok raw
      → IsPlain raw.name
      → submit M B cfg settings addr path (quiet s) ≡ (ok r, w)
      → IsValid raw
        × ((version : ℕ) × (r ≡ FlowResponse.flow (created raw.name version (normalized raw)))
            × (get_flow B raw.name w ≡ (
              ok (record (created raw.name version (normalized raw)) {
                status = stored_status B s raw.name;
              }),
              w,
            )))
  unfolding normalize create_flow
  submit_stores path raw s r w loaded plain e =
      let sent = submit-ok path raw (quiet s) loaded e in
      let made = serve-created (normalize (some raw)) (quiet s) sent.1 in
      let c =
        create_new_version-Wrote B raw.name (normalized raw) s (rw plain.nonempty at made.2) in
      (
        (normalized-IsValid raw).0 ((validate_iff (normalized raw)).0 sent.0),
        (
          c.next,
          made.1 ∙ ap FlowResponse.flow c.result,
          get_flow-Wrote B plain c
              ∙ ap (λ f. (ok (record f { status = stored_status B s raw.name }), w)) c.result,
        ),
      )
