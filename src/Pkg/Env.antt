-- ===== src/Pkg/Env.antt =====
-- How the services read the environment: `requireEnv` and `envOr` of their main files, and
-- `strconv.ParseBool`.
use flowix.Common.{
  ◌≡◌, ◌≢◌, eq_iff, arith, Bool-cases, inl, inr, String, Bool, true, false, ◌||◌, ◌&&◌, not, Option,
  none, some, ◌==◌, if◌then◌else◌,
}

-- `os.Getenv`: "" for a variable that is not set.
abbrev pub Getenv : Type 0
Getenv = String → String

-- `requireEnv`: `none` where the process ends.
unfoldable pub require_env : Getenv → String → Option String
require_env env k = if env k == "" && not (env "ENV" == "dev") then none else some (env k)

-- `envOr`
unfoldable pub env_or : Getenv → String → String → String
env_or env k d = if not (env k == "") then env k else d

-- `ParseBool`: `none` for its error.
unfoldable pub parse_bool : String → Option Bool
parse_bool s =
    if s == "1" || s == "t" || s == "T" || s == "true" || s == "TRUE" || s == "True"
    then some true
    else if s == "0" || s == "f" || s == "F" || s == "false" || s == "FALSE" || s == "False"
    then some false
    else none

-- The value of `ParseBool`, with its error dropped.
abbrev pub bool_or : Bool → Option Bool → Bool
bool_or d none = d
bool_or d (some b) = b

-- Outside a development environment a variable that is required is there, and is read as it is.
pub require_env-eq-some :
    (env : Getenv) (k v : String)
    → env "ENV" ≢ "dev"
    → require_env env k ≡ some v
    → (v ≡ env k) × (v ≢ "")
unfolding require_env
require_env-eq-some env k v n h = elim (Bool-cases (env k == "" && not (env "ENV" == "dev"))) [
  | inl e ↦ absurd (ground (arith, rw e at h))
  | inr e ↦ ground (arith, rw e at h, n, eq_iff (env "ENV") "dev", eq_iff (env k) "", e)
]
