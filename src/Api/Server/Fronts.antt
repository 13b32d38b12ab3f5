-- ===== src/Api/Server/Fronts.antt =====
-- A server that has started lets in the same requests over HTTP and over gRPC.
use flow_pipe.Prelude.{
  ◌≡◌, refl, ap, ◌∙◌, Bool, true, false, ◌||◌, not, ◌⊎◌, inl, inr, Bool-cases, List, [], ◌∷◌,
  if◌then◌else◌, arith,
}
use flow_pipe.Text.{Text, text_eq, text_eq→eq}
use flow_pipe.Text.FilePath.{is_empty}
use flow_pipe.Text.Spaces.{trim_space}
use flow_pipe.Remote.{Result, ok, err, Outcome, served, refused, lost, World, Remote}
use flow_pipe.Api.Config.{Config}
use flow_pipe.Api.Auth.{
  RpcError, missing_api_key, invalid_api_key, unauthorized, handled, passed, ConfigError,
  ensure_api_key_configured, ensure_grpc_server_tls_configured, first_bearer_token,
}
use flow_pipe.Api.Auth.Keys.{ensured-nonempty}
use flow_pipe.Api.Server.{
  with_http, with_checks, open_grpc_server, Machine, Server, new_server, GatewayError, unary,
  reflection, gateway, told, serve_grpc, serve_http,
}

module _ {S E A : Type 0} (M : Machine) (cfg : Config) (link : Outcome) (header : Text)
    (method : Remote S E A) (w : World S) where
  -- Both servers answer without a call of the method.
  pub record Refused : Type 0 where
    pub error : RpcError E
    pub is_auth : (error ≡ missing_api_key) ⊎ (error ≡ invalid_api_key)
    pub grpc : serve_grpc cfg (header ∷ []) (unary method) w ≡ (err error, w)
    pub http : serve_http M cfg link header method w ≡ (unauthorized, w)

  -- Both hand the request on: gRPC to the method, HTTP to the gateway's call of the method.
  pub record Admitted : Type 0 where
    pub grpc : serve_grpc cfg (header ∷ []) (unary method) w ≡ handled (method w)
    pub http :
        serve_http M cfg link header method w ≡ passed (gateway link (λ v. handled (method v)) w)

  forwarded_token :
      M.forward header ≡ (if is_empty header then [] else header ∷ [])
      → first_bearer_token (M.forward header) ≡ first_bearer_token (header ∷ [])
  unfolding first_bearer_token
  forwarded_token e = ap first_bearer_token e ∙ blank header
    where
      blank :
          (h : Text)
          → first_bearer_token (if is_empty h then [] else h ∷ []) ≡ first_bearer_token (h ∷ [])
      blank [] = refl
      blank (c ∷ h) = refl

  -- The branches, by authentication off, no token, and a token that is not the key.
  abbrev grpc_branch : Bool → Bool → Bool → Result (RpcError E) A × World S
  grpc_branch b c d =
      if b
      then handled (method w)
      else if c
      then (err missing_api_key, w)
      else if d
      then (err invalid_api_key, w)
      else handled (method w)

  serve_grpc-branch :
      (values : List Text) (b c d : Bool)
      → not cfg.auth_enabled ≡ b
      → is_empty (first_bearer_token values) ≡ c
      → not (text_eq (first_bearer_token values) cfg.api_key) ≡ d
      → serve_grpc cfg values (unary method) w ≡ grpc_branch b c d
  unfolding serve_grpc
  serve_grpc-branch values b c d eb ec ed = rw (eb, ec, ed) refl

  abbrev behind : Result (GatewayError E) A × World S
  behind = gateway link (serve_grpc cfg (M.forward header) (unary method)) w

  serve_http-branch :
      (b c d : Bool)
      → not cfg.auth_enabled ≡ b
      → is_empty (first_bearer_token (header ∷ [])) ≡ c
      → not (text_eq (first_bearer_token (header ∷ [])) cfg.api_key) ≡ d
      → serve_http M cfg link header method w
        ≡ (if b then passed behind else if c || d then (unauthorized, w) else passed behind)
  unfolding serve_http
  serve_http-branch b c d eb ec ed = rw (eb, ec, ed) refl

  gateway-same :
      (l : Outcome) (m n : Remote S (RpcError E) A) → m w ≡ n w → gateway l m w ≡ gateway l n w
  gateway-same served m n e = ap told e
  gateway-same refused m n e = refl
  gateway-same lost m n e = ap (λ r. (err GatewayError.unreachable, r.1)) e

  -- The servers decide alike, and who is admitted has the key where authentication is on.
  decide :
      M.forward header ≡ (if is_empty header then [] else header ∷ [])
      → Refused
        ⊎ (Admitted
            × ((cfg.auth_enabled ≡ false) ⊎ (first_bearer_token (header ∷ []) ≡ cfg.api_key)))
  decide forwarded =
      cases (not cfg.auth_enabled) (is_empty t) (not (text_eq t cfg.api_key)) refl refl refl
    where
      t : Text
      t = first_bearer_token (header ∷ [])

      same : first_bearer_token (M.forward header) ≡ t
      same = forwarded_token forwarded

      through :
          (b c d : Bool)
          → not cfg.auth_enabled ≡ b
          → is_empty t ≡ c
          → not (text_eq t cfg.api_key) ≡ d
          → grpc_branch b c d ≡ handled (method w)
          → behind ≡ gateway link (λ v. handled (method v)) w
      through b c d eb ec ed admits =
          gateway-same link (serve_grpc cfg (M.forward header) (unary method))
            (λ v. handled (method v))
            (serve_grpc-branch (M.forward header) b c d eb (ap is_empty same ∙ ec)
                (ap (λ k. not (text_eq k cfg.api_key)) same ∙ ed)
              ∙ admits)

      cases :
          (b c d : Bool)
          → not cfg.auth_enabled ≡ b
          → is_empty t ≡ c
          → not (text_eq t cfg.api_key) ≡ d
          → Refused ⊎ (Admitted × ((cfg.auth_enabled ≡ false) ⊎ (t ≡ cfg.api_key)))
      cases false true d eb ec ed = inl (record {
        error = missing_api_key;
        is_auth = inl refl;
        grpc = serve_grpc-branch (header ∷ []) false true d eb ec ed;
        http = serve_http-branch false true d eb ec ed;
      })
      cases false false true eb ec ed = inl (record {
        error = invalid_api_key;
        is_auth = inr refl;
        grpc = serve_grpc-branch (header ∷ []) false false true eb ec ed;
        http = serve_http-branch false false true eb ec ed;
      })
      cases true c d eb ec ed = inr (
        record {
          grpc = serve_grpc-branch (header ∷ []) true c d eb ec ed;
          http = serve_http-branch true c d eb ec ed ∙ ap passed (through true c d eb ec ed refl);
        },
        inl (ground arith),
      )
      cases false false false eb ec ed = inr (
        record {
          grpc = serve_grpc-branch (header ∷ []) false false false eb ec ed;
          http =
              serve_http-branch false false false eb ec ed
              ∙ ap passed (through false false false eb ec ed refl);
        },
        inr (text_eq→eq t cfg.api_key (ground arith)),
      )

-- New makes a server only if the key passes the check at the start.
new_server-ensured :
    (M : Machine) (cfg : Config) (sockets : List Text) {server : Server} {after : List Text}
    → new_server M cfg sockets ≡ (ok server, after)
    → ensure_api_key_configured cfg ≡ ok tt
unfolding new_server
new_server-ensured M cfg sockets {server} {after} = cases (ensure_api_key_configured cfg) refl
  where
    cases :
        (r : Result ConfigError Unit)
        → ensure_api_key_configured cfg ≡ r
        → with_http M cfg (
            with_checks M r
              (ensure_grpc_server_tls_configured cfg)
              sockets
              (open_grpc_server M cfg sockets))
          ≡ (ok server, after)
        → ensure_api_key_configured cfg ≡ ok tt
    cases (err x) er e = cc (ap (λ y. y.0) e)
    cases (ok tt) er e = er

-- If the API server has started, and the gateway hands on the header Authorization as it is, the HTTP and
-- the gRPC server treat any request for a method with that header alike: both answer it themselves, with an
-- error of the authentication, or both hand it on, gRPC to the method and HTTP to the gateway's call of
-- it. It is handed on only where authentication is off, or where the header bears the configured key
-- and that key is more than white space. The reflection service, which only the gRPC server has, hands
-- a request on whatever it bears.
pub started_fronts_agree :
    {S E A : Type 0} (M : Machine) (cfg : Config) (sockets after : List Text) (server : Server)
    (link : Outcome) (header : Text) (method stream : Remote S E A) (values : List Text)
    (w : World S)
    → new_server M cfg sockets ≡ (ok server, after)
    → M.forward header ≡ (if is_empty header then [] else header ∷ [])
    → (Refused M cfg link header method w
        ⊎ (Admitted M cfg link header method w
            × ((cfg.auth_enabled ≡ false)
                ⊎ ((first_bearer_token (header ∷ []) ≡ cfg.api_key)
                    × (is_empty (trim_space cfg.api_key) ≡ false)))))
      × (serve_grpc cfg values (reflection stream) w ≡ handled (stream w))
unfolding serve_grpc
started_fronts_agree M cfg sockets after server link header method stream values w started
      forwarded =
    (
      elim (decide M cfg link header method w forwarded) [
        | inl refused_both ↦ inl refused_both
        | inr (admitted, inl off) ↦ inr (admitted, inl off)
        | inr (admitted, inr key) ↦ inr (
          admitted,
          elim (Bool-cases cfg.auth_enabled) [
            | inl on ↦ inr (key, ensured-nonempty cfg on (new_server-ensured M cfg sockets started))
            | inr off ↦ inl off
          ],
        )
      ],
      refl,
    )
