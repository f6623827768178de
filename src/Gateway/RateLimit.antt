-- ===== src/Gateway/RateLimit.antt =====
-- services/gateway/internal/middleware/ratelimit.go: a fixed-window limiter. Redis runs the script
-- as one step; times are in milliseconds, of one clock.
pub mod Burst
pub mod Client
use flowix.Common.{
  ℕ, ◌≡◌, inl, inr, Bool-cases, arith, ◌+◌, ◌*◌, ◌/◌, String, ◌<>◌, Bool, true, false, ◌||◌, not,
  Option, none, some, ◌==◌, eqb, ltb, leb, if◌then◌else◌,
}
use flowix.Common.Int.{ℤ, pos, negsuc}
use flowix.Http.{Headers, Request, Step, next, set, http_error}

-- A counter of Redis and the time at which it expires.
pub record Counter : Type 0 where
  pub count : ℕ
  pub expires : ℕ

-- A counter that has expired is gone.
abbrev pub live : ℕ → Option Counter → Option Counter
live now none = none
live now (some c) = if leb c.expires now then none else some c

-- INCR, and PEXPIRE on the first of a window.
abbrev pub increment : ℕ → ℕ → Option Counter → Counter
increment now window none = record { count = 1; expires = now + window }
increment now window (some c) = record {
  count = c.count + 1;
  expires = if eqb (c.count + 1) 1 then now + window else c.expires;
}

-- `rateLimitScript` on the counter of its key: the counter after it, and whether the request
-- passes.
unfoldable pub run_script : ℕ → ℕ → ℕ → Option Counter → Counter × Bool
run_script now window limit c =
    let d = increment now window (live now c) in (d, not (ltb limit d.count))

abbrev positive_or : ℕ → ℤ → ℕ
positive_or d (negsuc n) = d
positive_or d (pos n) = if ltb 0 n then n else d

-- The limit, and the window in milliseconds.
abbrev pub limit_of : ℤ → ℕ
limit_of burst = positive_or 40 burst

unfoldable pub window_of : ℤ → ℤ → ℕ
window_of rps burst =
    let seconds = limit_of burst / positive_or 20 rps in
    if ltb seconds 1 then 1000 else seconds * 1000

abbrev too_many : Headers → Step
unfolding http_error
too_many w =
    http_error (set "Retry-After" "1" (set "Content-Type" "application/json; charset=utf-8" w))
      "{\"error\":\"too many requests\"}" 429

abbrev verdict : Headers → Request → Option Bool → Step
unfolding too_many
verdict w r none = next w r
verdict w r (some true) = next w r
verdict w r (some false) = too_many w

-- `RateLimit` for a client's address and the number of the window: `eval` runs the script for a
-- key, and is `none` where there is no Redis or it fails.
unfoldable pub rate_limit : (String → Option Bool) → String → String → Headers → Request → Step
unfolding verdict
rate_limit eval ip bucket w r =
    if r.path == "/health" || r.path == "/healthz"
    then next w r
    else verdict w r (eval ("ratelimit:" <> ip <> ":" <> bucket))

-- A request that the limit lets through goes on as it is.
pub rate_limit-request :
    (eval : String → Option Bool) (ip bucket : String) (w w' : Headers) (r r' : Request)
    → rate_limit eval ip bucket w r ≡ next w' r'
    → r' ≡ r
unfolding rate_limit verdict too_many http_error
rate_limit-request eval ip bucket w w' r r' e =
    elim (Bool-cases (r.path == "/health" || r.path == "/healthz")) [
      | inl f ↦ ground (arith, rw f at e)
      | inr f ↦ go (eval ("ratelimit:" <> ip <> ":" <> bucket)) (rw f at e)
    ]
  where
    go : (o : Option Bool) → verdict w r o ≡ next w' r' → r' ≡ r
    go none h = ground (arith, h)
    go (some true) h = ground (arith, h)
    go (some false) h = absurd (ground (arith, h))
