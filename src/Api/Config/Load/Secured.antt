-- ===== src/Api/Config/Load/Secured.antt =====
-- From the environment to the guard: the key in FLOW_API_KEY is the one that requests must bear.
use flow_pipe.Prelude.{
  ◌≡◌, ◌≢◌, refl, ◌∙◌, Bool, true, false, none, List, [], ◌∷◌, map, arith, ◌⊎◌, inr, if◌then◌else◌,
}
use flow_pipe.Text.{Text, codes, text_eq, text_eq-false}
use flow_pipe.Text.FilePath.{is_empty}
use flow_pipe.Remote.{Remote, World, Outcome, err}
use flow_pipe.Api.Config.Load.{
  Env, Flags, load, env_bool_or_default, is_one_of, true_words, false_words,
}
use flow_pipe.Api.Auth.{
  lower_byte, first_bearer_token, RpcError, missing_api_key, invalid_api_key, unauthorized,
}
use flow_pipe.Api.Server.{Machine, unary, gateway, serve_grpc, serve_http}
use flow_pipe.Api.Auth.Keys.{interceptor-rejects, middleware-rejects}

true_word :
    (env : Env) (key : Text) (def : Bool)
    → is_one_of true_words (map lower_byte (env key)) ≡ true
    → env_bool_or_default env key def ≡ true
unfolding text_eq
true_word env key def h = cases (env key) h
  where
    cases :
        (v : Text)
        → is_one_of true_words (map lower_byte v) ≡ true
        → (if is_empty v
            then def
            else if is_one_of true_words (map lower_byte v)
            then true
            else if is_one_of false_words (map lower_byte v)
            then false
            else def)
          ≡ true
    cases [] h = ground arith
    cases (c ∷ v) h = rw h

loaded_key : (v : Text) → (if is_empty v then [] else v) ≡ v
loaded_key [] = refl
loaded_key (c ∷ v) = refl

module _ (env : Env) (flags : Flags) where
  load-auth_enabled :
      flags.bools (codes "auth-enabled") ≡ none
      → is_one_of true_words (map lower_byte (env (codes "FLOW_AUTH_ENABLED"))) ≡ true
      → (load env flags).auth_enabled ≡ true
  unfolding load
  load-auth_enabled none_given h = rw none_given (true_word env (codes "FLOW_AUTH_ENABLED") false h)

  load-api_key :
      flags.strings (codes "api-key") ≡ none → (load env flags).api_key ≡ env (codes "FLOW_API_KEY")
  unfolding load
  load-api_key none_given = rw none_given (loaded_key (env (codes "FLOW_API_KEY")))

-- Where neither flag is given, FLOW_AUTH_ENABLED is one of 1, true, t, yes and y in any case, and the
-- servers run with what Load returns: a call of a method over gRPC whose first bearer token is not
-- FLOW_API_KEY gets an error of the authentication, and a request over HTTP with such a header gets
-- "unauthorized"; neither reaches the method. (This says nothing of the gRPC server's reflection
-- service, which has no methods of flows or schemas.)
pub loaded_key_guards :
    {S E A : Type 0} (M : Machine) (env : Env) (flags : Flags) (link : Outcome) (values : List Text)
    (header : Text) (method : Remote S E A) (w : World S)
    → flags.bools (codes "auth-enabled") ≡ none
    → flags.strings (codes "api-key") ≡ none
    → is_one_of true_words (map lower_byte (env (codes "FLOW_AUTH_ENABLED"))) ≡ true
    → first_bearer_token values ≢ env (codes "FLOW_API_KEY")
    → first_bearer_token (header ∷ []) ≢ env (codes "FLOW_API_KEY")
    → ((e : RpcError E) × (serve_grpc (load env flags) values (unary method) w ≡ (err e, w))
        × ((e ≡ missing_api_key) ⊎ (e ≡ invalid_api_key)))
      × (serve_http M (load env flags) link header method w ≡ (unauthorized, w))
unfolding serve_grpc serve_http
loaded_key_guards M env flags link values header method w no_switch no_key on wrong wrong_header =
    let enabled = load-auth_enabled env flags no_switch on in
    let key = load-api_key env flags no_key in
    (
      interceptor-rejects (load env flags) values method w enabled
          (inr (text_eq-false _ _ (λ e. wrong (e ∙ key)))),
      middleware-rejects (load env flags) header
          (gateway link (serve_grpc (load env flags) (M.forward header) (unary method))) w enabled
          (inr (text_eq-false _ _ (λ e. wrong_header (e ∙ key)))),
    )
