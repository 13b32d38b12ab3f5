-- ===== src/Cli/Admission.antt =====
-- The key that a client sends is the key that the API server asks for.
use flow_pipe.Prelude.{
  ◌≡◌, refl, ap, sym, ◌∙◌, Bool, true, false, not, ◌&&◌, List, [], ◌∷◌, ◌++◌, map, if◌then◌else◌,
  arith,
}
use flow_pipe.Text.{Text, codes, has_prefix}
use flow_pipe.Text.FilePath.{is_empty}
use flow_pipe.Text.Spaces.{trim_space}
use flow_pipe.Text.Spaces.Trimmed.{trim_space-trim_space}
use flow_pipe.Remote.{Result, ok, err, Outcome, served, refused, lost, World, Remote}
use flow_pipe.Backend.{StoreError}
use flow_pipe.Api.Config.{Config}
use flow_pipe.Api.Auth.{
  lower_byte, bearer_prefix, ensure_api_key_configured, api_key_unary_interceptor, handled,
  RpcError,
}
use flow_pipe.Api.Auth.Keys.{ensured-nonempty, bearer_header_admits}
use flow_pipe.Cli.{
  RootFlags, Surroundings, Connection, CliError, api_address_required, tls_cert_empty,
  tls_server_name_empty, tls_config_failed, connect_failed, format_bearer_token, request_metadata,
  dial_api, answered, over, call,
}

-- What the dial sends along.
abbrev metadata : RootFlags → List Text
metadata settings =
    if not (is_empty (trim_space settings.api_key))
    then request_metadata (format_bearer_token settings.api_key)
    else []

dial_api-authorization :
    (M : Surroundings) (settings : RootFlags) (addr : Text) (conn : Connection)
    → dial_api M settings addr ≡ ok conn
    → conn.authorization ≡ metadata settings
unfolding dial_api
dial_api-authorization M settings addr conn =
    let tls = settings.grpc_tls_enabled in
    cases (is_empty addr) (tls && is_empty (trim_space settings.grpc_tls_cert_file))
      (tls && is_empty (trim_space settings.grpc_tls_server_name))
      (tls && not (M.tls_credentials settings.grpc_tls_cert_file settings.grpc_tls_server_name))
      (not (M.connects addr))
  where
    dialled : Connection
    dialled = record { authorization = metadata settings; secured = settings.grpc_tls_enabled }

    cases :
        (a b c d e : Bool)
        → (if a
            then err api_address_required
            else if b
            then err tls_cert_empty
            else if c
            then err tls_server_name_empty
            else if d
            then err tls_config_failed
            else if e
            then err (connect_failed addr)
            else ok dialled)
          ≡ ok conn
        → conn.authorization ≡ metadata settings
    cases true b c d e h = ground arith
    cases false true c d e h = ground arith
    cases false false true d e h = ground arith
    cases false false false true e h = ground arith
    cases false false false false true h = ground arith
    cases false false false false false h =
        let same : dialled ≡ conn = cc in ap (λ (k : Connection). k.authorization) (sym same)

-- A key that is not empty, without the white space around it, goes behind "Bearer ".
metadata-bearer :
    (settings : RootFlags) (key : Text)
    → trim_space settings.api_key ≡ key
    → is_empty key ≡ false
    → has_prefix bearer_prefix (map lower_byte key) ≡ false
    → metadata settings ≡ (codes "Bearer " ++ key) ∷ []
unfolding format_bearer_token
metadata-bearer settings key e filled bare = rw (e, filled, bare) refl

module _ {S A : Type 0} where
  over-same :
      (link : Outcome) (m n : Remote S (RpcError StoreError) A) (w : World S)
      → m w ≡ n w
      → over link m w ≡ over link n w
  over-same served m n w e = ap answered e
  over-same refused m n w e = refl
  over-same lost m n w e = ap (λ r. (err CliError.call_lost, r.1)) e

  call-dialled :
      (M : Surroundings) (cfg : Config) (settings : RootFlags) (addr : Text) (conn : Connection)
      (method : Remote S StoreError A) (w : World S)
      → dial_api M settings addr ≡ ok conn
      → call M cfg settings addr method w
        ≡ over M.link (api_key_unary_interceptor cfg conn.authorization method) w
  unfolding call
  call-dialled M cfg settings addr conn method w dialled =
      ap
        (λ (d : Result CliError Connection). elim d [
          | err e ↦ (err e, w)
          | ok c ↦ over M.link (api_key_unary_interceptor cfg c.authorization method) w
        ])
        dialled

-- A client whose key, without the white space around it, is the one that the API server has been
-- started with, is let in: where authentication is on, the key passes the check at the start and does
-- not itself begin with "bearer ", and the dial succeeds, a command's call is what the network makes of
-- the call of the method, as if there were no authentication.
pub client_key_admits :
    {S A : Type 0} (M : Surroundings) (cfg : Config) (settings : RootFlags) (addr : Text)
    (conn : Connection) (method : Remote S StoreError A) (w : World S)
    → cfg.auth_enabled ≡ true
    → ensure_api_key_configured cfg ≡ ok tt
    → trim_space settings.api_key ≡ cfg.api_key
    → has_prefix bearer_prefix (map lower_byte cfg.api_key) ≡ false
    → dial_api M settings addr ≡ ok conn
    → call M cfg settings addr method w ≡ over M.link (λ v. handled (method v)) w
client_key_admits {S = S} M cfg settings addr conn method w on ensured same bare dialled =
    call-dialled M cfg settings addr conn method w dialled
    ∙ ap (λ vs. over M.link (api_key_unary_interceptor cfg vs method) w)
        (dial_api-authorization M settings addr conn dialled ∙ sent)
    ∙ over-same M.link
        (api_key_unary_interceptor cfg ((codes "Bearer " ++ cfg.api_key) ∷ []) method)
        (λ v. handled (method v)) w admitted
  where
    trimmed : trim_space cfg.api_key ≡ cfg.api_key
    trimmed = ap trim_space (sym same) ∙ trim_space-trim_space settings.api_key ∙ same

    sent : metadata settings ≡ (codes "Bearer " ++ cfg.api_key) ∷ []
    sent =
        metadata-bearer settings cfg.api_key same (rw trimmed at (ensured-nonempty cfg on ensured))
          bare

    admitted :
        api_key_unary_interceptor cfg ((codes "Bearer " ++ cfg.api_key) ∷ []) method w
        ≡ handled (method w)
    admitted = (bearer_header_admits cfg method (λ (s : S). (tt, s)) w on ensured trimmed).0
