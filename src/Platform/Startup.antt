-- ===== src/Platform/Startup.antt =====
-- The services started in one environment: the main files of the gateway, of the upload and of the
-- metadata service under services/*/cmd/server.
use flowix.Common.{◌≡◌, ◌≢◌, ◌↔◌, sym, ◌∙◌, String, some, eq_iff, arith, Bool-cases, inl, inr}
use flowix.Pkg.Env.{Getenv, require_env, require_env-eq-some}
use flowix.Gateway.ClientIp.{Net}
use flowix.Gateway.Startup as GatewayStartup
use flowix.Gateway.Startup.{Libraries}
use flowix.Upload.Server.Setup
use flowix.Metadata.Database.{Database}
use flowix.Metadata.Server
use flowix.Metadata.Server.{Answer, refused}
use flowix.Metadata.Server.Startup as MetadataStartup
use flowix.Platform.{ask, trusted, ask_of_trusted, ask_of_untrusted}

module _ (env : Getenv) (n : env "ENV" ≢ "dev") (k a b : String)
    (first : require_env env k ≡ some a) (second : require_env env k ≡ some b) where
  shared : (a ≡ b) × (a ≢ "")
  shared =
      let (p, filled) = require_env-eq-some env k a n first in
      let (q, _) = require_env-eq-some env k b n second in (p ∙ sym q, filled)

ask_iff :
    (st : Server.Setup) (db : Database) (token id : String)
    → st.internal_token ≢ ""
    → (ask st db token id ≢ refused 401) ↔ (token ≡ st.internal_token)
ask_iff st db token id filled = elim (Bool-cases (trusted st token)) [
  | inl e ↦ (
    λ k. ground (arith, e, filled, eq_iff st.internal_token "", eq_iff token st.internal_token),
    λ same k. ground (arith, sym (ask_of_trusted st db token id e) ∙ k),
  )
  | inr e ↦ (
    λ k. absurd (k (ask_of_untrusted st db token id e)),
    λ same. absurd (ground (arith, e, same, eq_iff token st.internal_token)),
  )
]

-- The gateway, the upload and the metadata service, where they start in one environment that is not
-- `dev`, have the same two secrets, neither of them empty; and the metadata service answers its
-- internal requests for a video to those with that token and refuses all others.
pub start-shared :
    {net : Net} {R : Type 0} (lib : Libraries net R) (env : Getenv)
    (g : GatewayStartup.Startup net R) (u : Setup.Setup) (m : MetadataStartup.Secrets)
    (st : Server.Setup) (db : Database) (token id : String)
    → env "ENV" ≢ "dev"
    → GatewayStartup.start lib env ≡ some g
    → Setup.set_up env ≡ some u
    → MetadataStartup.secrets env ≡ some m
    → st.internal_token ≡ m.internal_token
    → ((g.jwt_secret ≡ m.jwt_secret) × (u.jwt_secret ≡ m.jwt_secret) × (m.jwt_secret ≢ ""))
      × ((g.internal_token ≡ m.internal_token)
          × (u.internal_token ≡ m.internal_token)
          × (m.internal_token ≢ ""))
      × ((ask st db token id ≢ refused 401) ↔ (token ≡ m.internal_token))
start-shared lib env g u m st db token id n started set_up began same =
    let (gs, gt) = GatewayStartup.start-secrets lib env g started in
    let (us, ut) = Setup.set_up-secrets env u set_up in
    let (ms, mt) = MetadataStartup.secrets-secrets env m began in
    let (a, b) = shared env n "JWT_SECRET" _ _ ms gs in
    let (c, d) = shared env n "INTERNAL_TOKEN" _ _ mt gt in
    (
      (sym a, (shared env n "JWT_SECRET" _ _ us ms).0, b),
      (sym c, (shared env n "INTERNAL_TOKEN" _ _ ut mt).0, d),
      rw (← same) (ask_iff st db token id (rw same d)),
    )
