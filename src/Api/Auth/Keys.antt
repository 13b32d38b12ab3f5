-- ===== src/Api/Auth/Keys.antt =====
-- Which keys a client can authenticate with.
use flow_pipe.Prelude.{
  ◌≡◌, ◌≢◌, refl, ap, subst, Bool, true, false, not, List, [], ◌∷◌, ◌++◌, arith, drop,
  if◌then◌else◌, ◌⊎◌, inl, inr, Bool-cases, map, ◌||◌,
}
use flow_pipe.Text.{Text, codes, text_eq, text_eq_refl, text_eq→eq, has_prefix}
use flow_pipe.Text.FilePath.{is_empty}
use flow_pipe.Text.Spaces.{trim_space}
use flow_pipe.Text.Spaces.Trimmed.{IsTrimmed, trim_space-IsTrimmed, trim_space-idle}
use flow_pipe.Text.Spaces.Word.{bearer-IsTrimmed}
use flow_pipe.Remote.{ok, err, World, Remote}
use flow_pipe.Api.Config.{Config}
use flow_pipe.Api.Auth.{
  parse_bearer_token, first_bearer_token, lower_byte, bearer_prefix, ensure_api_key_configured,
  api_key_empty, RpcError, missing_api_key, invalid_api_key, unauthorized, handled, passed,
  api_key_unary_interceptor, api_key_http_middleware,
}

empty_or_not : (s : Text) → is_empty s ≡ true → s ≡ []
empty_or_not [] h = refl
empty_or_not (c ∷ s) h = ground arith

-- A token has nothing to trim.
parse_bearer_token-IsTrimmed :
    (value : Text) → (parse_bearer_token value ≡ []) ⊎ IsTrimmed (parse_bearer_token value)
unfolding parse_bearer_token
parse_bearer_token-IsTrimmed value =
    cases (is_empty (trim_space value))
      (not (has_prefix bearer_prefix (map lower_byte (trim_space value))))
  where
    v : Text
    v = trim_space value

    cases :
        (a b : Bool)
        → ((if a then [] else if b then [] else trim_space (drop 7 v)) ≡ [])
          ⊎ IsTrimmed (if a then [] else if b then [] else trim_space (drop 7 v))
    cases true b = inl refl
    cases false true = inl refl
    cases false false = inr (trim_space-IsTrimmed (drop 7 v))

first_bearer_token-IsTrimmed :
    (values : List Text) → (first_bearer_token values ≡ []) ⊎ IsTrimmed (first_bearer_token values)
unfolding first_bearer_token
first_bearer_token-IsTrimmed [] = inl refl
first_bearer_token-IsTrimmed (value ∷ values) =
    cases (not (is_empty (parse_bearer_token value))) (parse_bearer_token-IsTrimmed value)
      (first_bearer_token-IsTrimmed values)
  where
    cases :
        (b : Bool)
        → (parse_bearer_token value ≡ []) ⊎ IsTrimmed (parse_bearer_token value)
        → (first_bearer_token values ≡ []) ⊎ IsTrimmed (first_bearer_token values)
        → ((if b then parse_bearer_token value else first_bearer_token values) ≡ [])
          ⊎ IsTrimmed (if b then parse_bearer_token value else first_bearer_token values)
    cases true h rest = h
    cases false h rest = rest

-- No token is a key with white space around it.
token≢padded :
    (values : List Text) (key : Text)
    → trim_space key ≢ key
    → is_empty (first_bearer_token values) ≡ false
    → text_eq (first_bearer_token values) key ≡ false
token≢padded values key h e = elim (Bool-cases (text_eq (first_bearer_token values) key)) [
  | inr differ ↦ differ
  | inl same ↦ elim (first_bearer_token-IsTrimmed values) [
    | inl empty ↦ cc (ap is_empty empty)
    | inr trimmed ↦ absurd (
        h (
          subst (λ k. trim_space k ≡ k) (text_eq→eq (first_bearer_token values) key same)
            (trim_space-idle (first_bearer_token values) trimmed)))
  ]
]

-- The header of a key that is trimmed and not empty gives the key.
bearer_header :
    (key : Text)
    → is_empty key ≡ false
    → trim_space key ≡ key
    → parse_bearer_token (codes "Bearer " ++ key) ≡ key
unfolding parse_bearer_token
bearer_header key e h = rw (whole, h)
  where
    trimmed : IsTrimmed key
    trimmed = subst IsTrimmed h (trim_space-IsTrimmed key)

    whole : trim_space (codes "Bearer " ++ key) ≡ codes "Bearer " ++ key
    whole =
        trim_space-idle (codes "Bearer " ++ key)
          (bearer-IsTrimmed key (λ n. cc (ap is_empty n)) trimmed)

first_of_header :
    (key : Text)
    → is_empty key ≡ false
    → trim_space key ≡ key
    → first_bearer_token ((codes "Bearer " ++ key) ∷ []) ≡ key
unfolding first_bearer_token
first_of_header key e h = rw (bearer_header key e h, e)

module _ {S E A : Type 0} where
  pub interceptor-rejects :
      (cfg : Config) (values : List Text) (handler : Remote S E A) (w : World S)
      → cfg.auth_enabled ≡ true
      → ((is_empty (first_bearer_token values) ≡ true)
          ⊎ (text_eq (first_bearer_token values) cfg.api_key ≡ false))
      → (e : RpcError E) × (api_key_unary_interceptor cfg values handler w ≡ (err e, w))
        × ((e ≡ missing_api_key) ⊎ (e ≡ invalid_api_key))
  unfolding api_key_unary_interceptor
  interceptor-rejects cfg values handler w on (inl h) = (missing_api_key, rw (on, h), inl refl)
  interceptor-rejects cfg values handler w on (inr h) =
      cases (is_empty (first_bearer_token values)) refl
    where
      cases :
          (b : Bool)
          → is_empty (first_bearer_token values) ≡ b
          → (e : RpcError E) × (api_key_unary_interceptor cfg values handler w ≡ (err e, w))
            × ((e ≡ missing_api_key) ⊎ (e ≡ invalid_api_key))
      cases true b = (missing_api_key, rw (on, b), inl refl)
      cases false b = (invalid_api_key, rw (on, b, h), inr refl)

  interceptor-admits :
      (cfg : Config) (values : List Text) (handler : Remote S E A) (w : World S)
      → first_bearer_token values ≡ cfg.api_key
      → is_empty cfg.api_key ≡ false
      → api_key_unary_interceptor cfg values handler w ≡ handled (handler w)
  unfolding api_key_unary_interceptor
  interceptor-admits cfg values handler w same e = cases (not cfg.auth_enabled)
    where
      cases :
          (b : Bool)
          → (if b
              then handled (handler w)
              else if is_empty (first_bearer_token values)
              then (err missing_api_key, w)
              else if not (text_eq (first_bearer_token values) cfg.api_key)
              then (err invalid_api_key, w)
              else handled (handler w))
            ≡ handled (handler w)
      cases true = refl
      cases false = rw (same, e, text_eq_refl cfg.api_key)

module _ {W A : Type 0} where
  pub middleware-rejects :
      (cfg : Config) (header : Text) (next : W → A × W) (w : W)
      → cfg.auth_enabled ≡ true
      → ((is_empty (first_bearer_token (header ∷ [])) ≡ true)
          ⊎ (text_eq (first_bearer_token (header ∷ [])) cfg.api_key ≡ false))
      → api_key_http_middleware cfg header next w ≡ (unauthorized, w)
  unfolding api_key_http_middleware
  middleware-rejects cfg header next w on (inl h) = rw (on, h)
  middleware-rejects cfg header next w on (inr h) =
      cases (is_empty (first_bearer_token (header ∷ []))) refl
    where
      cases :
          (b : Bool)
          → is_empty (first_bearer_token (header ∷ [])) ≡ b
          → api_key_http_middleware cfg header next w ≡ (unauthorized, w)
      cases true b = rw (on, b)
      cases false b = rw (on, b, h)

  middleware-admits :
      (cfg : Config) (header : Text) (next : W → A × W) (w : W)
      → first_bearer_token (header ∷ []) ≡ cfg.api_key
      → is_empty cfg.api_key ≡ false
      → api_key_http_middleware cfg header next w ≡ passed (next w)
  unfolding api_key_http_middleware
  middleware-admits cfg header next w same e = cases (not cfg.auth_enabled)
    where
      cases :
          (b : Bool)
          → (if b
              then passed (next w)
              else if is_empty (first_bearer_token (header ∷ []))
                  || not (text_eq (first_bearer_token (header ∷ [])) cfg.api_key)
              then (unauthorized, w)
              else passed (next w))
            ≡ passed (next w)
      cases true = refl
      cases false = rw (same, e, text_eq_refl cfg.api_key)

pub ensured-nonempty :
    (cfg : Config)
    → cfg.auth_enabled ≡ true
    → ensure_api_key_configured cfg ≡ ok tt
    → is_empty (trim_space cfg.api_key) ≡ false
unfolding ensure_api_key_configured
ensured-nonempty cfg on e = cases (is_empty (trim_space cfg.api_key)) (rw on at e)
  where
    cases : (b : Bool) → (if b then err api_key_empty else ok tt) ≡ ok tt → b ≡ false
    cases true h = ground arith
    cases false h = refl

-- A reason to turn a token away: there is none, or it is not the key.
turned_away :
    (values : List Text) (key : Text)
    → trim_space key ≢ key
    → (is_empty (first_bearer_token values) ≡ true)
      ⊎ (text_eq (first_bearer_token values) key ≡ false)
turned_away values key h = elim (Bool-cases (is_empty (first_bearer_token values))) [
  | inl e ↦ inl e
  | inr e ↦ inr (token≢padded values key h e)
]

-- Where authentication is on and the key passes the check at the start, a key without white space
-- around it can be used: the header "Bearer " followed by the key brings a request to the gRPC
-- handler, and through the HTTP middleware, and the reply is the handler's.
pub bearer_header_admits :
    {S E A B : Type 0} (cfg : Config) (handler : Remote S E A) (next : S → B × S) (w : World S)
    → cfg.auth_enabled ≡ true
    → ensure_api_key_configured cfg ≡ ok tt
    → trim_space cfg.api_key ≡ cfg.api_key
    → let header = codes "Bearer " ++ cfg.api_key in
      (api_key_unary_interceptor cfg (header ∷ []) handler w ≡ handled (handler w))
      × (api_key_http_middleware cfg header next w.server ≡ passed (next w.server))
bearer_header_admits cfg handler next w on ensured trimmed =
    let filled = rw trimmed at (ensured-nonempty cfg on ensured) in
    let same = first_of_header cfg.api_key filled trimmed in
    (
      interceptor-admits cfg ((codes "Bearer " ++ cfg.api_key) ∷ []) handler w same filled,
      middleware-admits cfg (codes "Bearer " ++ cfg.api_key) next w.server same filled,
    )

-- Where authentication is on, a key with white space around it can never be used: whatever the
-- authorization values or header of a request, the gRPC interceptor answers with one of its two
-- errors and the HTTP middleware with "unauthorized", and neither reaches the handler.
pub padded_key_locks_out :
    {S E A B : Type 0} (cfg : Config) (values : List Text) (header : Text) (handler : Remote S E A)
    (next : S → B × S) (w : World S)
    → cfg.auth_enabled ≡ true
    → trim_space cfg.api_key ≢ cfg.api_key
    → ((e : RpcError E) × (api_key_unary_interceptor cfg values handler w ≡ (err e, w))
        × ((e ≡ missing_api_key) ⊎ (e ≡ invalid_api_key)))
      × (api_key_http_middleware cfg header next w.server ≡ (unauthorized, w.server))
padded_key_locks_out cfg values header handler next w on padded = (
  interceptor-rejects cfg values handler w on (turned_away values cfg.api_key padded),
  middleware-rejects cfg header next w.server on (turned_away (header ∷ []) cfg.api_key padded),
)
