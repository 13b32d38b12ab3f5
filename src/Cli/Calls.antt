-- ===== src/Cli/Calls.antt =====
-- What a call that succeeded shows: the method succeeded, and the next call goes through.
use flow_pipe.Prelude.{◌≡◌, refl, ap, ap₂, Bool, true, false, not, List, if◌then◌else◌}
use flow_pipe.Text.{Text, text_eq}
use flow_pipe.Text.FilePath.{is_empty}
use flow_pipe.Remote.{Result, ok, err, Outcome, served, refused, lost, World, Remote}
use flow_pipe.Backend.{StoreError}
use flow_pipe.Api.Config.{Config}
use flow_pipe.Api.Auth.{
  api_key_unary_interceptor, first_bearer_token, missing_api_key, invalid_api_key, handled,
}
use flow_pipe.Cli.{Surroundings, RootFlags, CliError, Connection, dial_api, answered, over, call}

module _ {S A : Type 0} where
  handled-ok :
      (r : Result StoreError A × World S) {a : A} {w : World S}
      → answered (handled r) ≡ (ok a, w)
      → r ≡ (ok a, w)
  handled-ok (ok b, v) e =
      let same : b ≡ _ = cc (ap (λ x. x.0) e) in ap₂ (λ c u. (ok c, u)) same (ap (λ x. x.1) e)
  handled-ok (err x, v) e = cc (ap (λ x. x.0) e)

  interceptor-ok :
      (cfg : Config) (values : List Text) (method : Remote S StoreError A) (v : World S) {a : A}
      {w : World S}
      → answered (api_key_unary_interceptor cfg values method v) ≡ (ok a, w)
      → method v ≡ (ok a, w)
  unfolding api_key_unary_interceptor
  interceptor-ok cfg values method v {a} {w} =
      let token = first_bearer_token values in
      cases (not cfg.auth_enabled) (is_empty token) (not (text_eq token cfg.api_key))
    where
      cases :
          (b c d : Bool)
          → answered (
              if b
              then handled (method v)
              else if c
              then (err missing_api_key, v)
              else if d
              then (err invalid_api_key, v)
              else handled (method v))
            ≡ (ok a, w)
          → method v ≡ (ok a, w)
      cases true c d e = handled-ok (method v) e
      cases false true d e = cc (ap (λ x. x.0) e)
      cases false false true e = cc (ap (λ x. x.0) e)
      cases false false false e = handled-ok (method v) e

  -- A call that succeeded is the method's success.
  pub call-ok :
      (M : Surroundings) (cfg : Config) (settings : RootFlags) (addr : Text)
      (method : Remote S StoreError A) (v : World S) {a : A} {w : World S}
      → call M cfg settings addr method v ≡ (ok a, w)
      → method v ≡ (ok a, w)
  unfolding call
  call-ok M cfg settings addr method v {a} {w} = cases (dial_api M settings addr) M.link
    where
      cases :
          (dialled : Result CliError Connection) (link : Outcome)
          → (elim dialled [
            | err e ↦ (err e, v)
            | ok conn ↦ over link (api_key_unary_interceptor cfg conn.authorization method) v
          ])
            ≡ (ok a, w)
          → method v ≡ (ok a, w)
      cases (err x) link e = cc (ap (λ x. x.0) e)
      cases (ok conn) served e = interceptor-ok cfg conn.authorization method v e
      cases (ok conn) refused e = cc (ap (λ x. x.0) e)
      cases (ok conn) lost e = cc (ap (λ x. x.0) e)

module _ {S A : Type 0} {a : A} {w : World S} where
  interceptor-again :
      {C : Type 0} (cfg : Config) (values : List Text) (method : Remote S StoreError A)
      (v : World S) (next : Remote S StoreError C) (u : World S)
      → answered (api_key_unary_interceptor cfg values method v) ≡ (ok a, w)
      → api_key_unary_interceptor cfg values next u ≡ handled (next u)
  unfolding api_key_unary_interceptor
  interceptor-again cfg values method v next u =
      let token = first_bearer_token values in
      cases (not cfg.auth_enabled) (is_empty token) (not (text_eq token cfg.api_key))
    where
      cases :
          (b c d : Bool)
          → answered (
              if b
              then handled (method v)
              else if c
              then (err missing_api_key, v)
              else if d
              then (err invalid_api_key, v)
              else handled (method v))
            ≡ (ok a, w)
          → (if b
              then handled (next u)
              else if c
              then (err missing_api_key, u)
              else if d
              then (err invalid_api_key, u)
              else handled (next u))
            ≡ handled (next u)
      cases true c d e = refl
      cases false true d e = cc (ap (λ x. x.0) e)
      cases false false true e = cc (ap (λ x. x.0) e)
      cases false false false e = refl

  -- After a call that succeeded, the next call over the same network succeeds as its method does.
  pub call-again :
      {C : Type 0} (M : Surroundings) (cfg : Config) (settings : RootFlags) (addr : Text)
      (method : Remote S StoreError A) (v : World S) (next : Remote S StoreError C) (u : World S)
      → call M cfg settings addr method v ≡ (ok a, w)
      → call M cfg settings addr next u ≡ answered (handled (next u))
  unfolding call
  call-again M cfg settings addr method v next u = cases (dial_api M settings addr) M.link
    where
      cases :
          (dialled : Result CliError Connection) (link : Outcome)
          → (elim dialled [
            | err e ↦ (err e, v)
            | ok conn ↦ over link (api_key_unary_interceptor cfg conn.authorization method) v
          ])
            ≡ (ok a, w)
          → (elim dialled [
            | err e ↦ (err e, u)
            | ok conn ↦ over link (api_key_unary_interceptor cfg conn.authorization next) u
          ])
            ≡ answered (handled (next u))
      cases (err x) link e = cc (ap (λ x. x.0) e)
      cases (ok conn) served e =
          ap answered (interceptor-again cfg conn.authorization method v next u e)
      cases (ok conn) refused e = cc (ap (λ x. x.0) e)
      cases (ok conn) lost e = cc (ap (λ x. x.0) e)
