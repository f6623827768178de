-- ===== src/Gateway/RateLimit/Client.antt =====
-- The requests of one client behind `RateLimit`, with the counters of Redis.
use native.Mathlib.Nat.{div-add-mod, mod-lt}
use flowix.Common.{
  ℕ, ◌+◌, ◌*◌, ◌/◌, ◌≤◌, ◌<◌, ◌≡◌, refl, sym, ap, ◌∙◌, String, ◌<>◌, Bool, true, false, ◌||◌,
  Option, none, some, List, [], ◌∷◌, All, ◌==◌, eq_refl, arith, if◌then◌else◌, Bool-cases, inl, inr,
}
use flowix.Common.Int.{ℤ}
use flowix.Http.{Headers, Request, Step, reply, next, http_error}
use flowix.Gateway.RateLimit.{
  Counter, run_script, limit_of, window_of, too_many, verdict, rate_limit,
}
use flowix.Gateway.RateLimit.Burst.{one_if, passes, Within, passes-le-limit}

-- A request with the time at which it comes, in milliseconds, and the headers written before.
pub record Arrival : Type 0 where
  pub time : ℕ
  pub headers : Headers
  pub request : Request

-- The counters of Redis under their keys.
abbrev pub Counters : Type 0
Counters = String → Option Counter

abbrev pub is_exempt : Request → Bool
is_exempt r = r.path == "/health" || r.path == "/healthz"

abbrev is_next : Step → Bool
is_next (reply code w body) = false
is_next (next w r) = true

is_next-verdict : (w : Headers) (r : Request) (b : Bool) → is_next (verdict w r (some b)) ≡ b
unfolding verdict too_many http_error
is_next-verdict w r true = refl
is_next-verdict w r false = refl

module _ (rps burst : ℤ) (shown : ℕ → String) (ip : String) where
  -- The number of the window, in which `shown` prints a number.
  abbrev bucket : ℕ → String
  bucket t = shown (t / window_of rps burst)

  abbrev pub key_at : ℕ → String
  key_at t = "ratelimit:" <> ip <> ":" <> bucket t

  -- What Redis answers and how it counts, at a time.
  abbrev script_at : ℕ → Counters → String → Counter × Bool
  script_at t cs key = run_script t (window_of rps burst) (limit_of burst) (cs key)

  abbrev answer : Arrival → Counters → Step
  answer a cs =
      rate_limit (λ key. some (script_at a.time cs key).1) ip (bucket a.time) a.headers a.request

  abbrev counted : Arrival → Counters → Counters
  counted a cs = if is_exempt a.request then cs else λ key.
      if key == key_at a.time then some (script_at a.time cs key).0 else cs key

  abbrev through : Arrival → Counters → Bool
  through a cs = if is_exempt a.request then false else is_next (answer a cs)

  -- How many of the requests that are not for a health path go through, one after the other.
  unfoldable pub passed : Counters → List Arrival → ℕ
  unfolding rate_limit run_script window_of
  passed cs [] = 0
  passed cs (a ∷ later) = one_if (through a cs) + passed (counted a cs) later

  -- The times of the requests that are not for a health path.
  abbrev limited_times : List Arrival → List ℕ
  limited_times [] = []
  limited_times (a ∷ later) =
      let rest = limited_times later in if is_exempt a.request then rest else a.time ∷ rest

  -- The times of the window with the number n.
  abbrev pub InWindow : ℕ → Arrival → Type 0
  InWindow n a = a.time / window_of rps burst ≡ n

  abbrev counter_key : ℕ → String
  counter_key n = "ratelimit:" <> ip <> ":" <> shown n

  limited_times-cons :
      (a : Arrival) (later : List Arrival)
      → is_exempt a.request ≡ false
      → limited_times (a ∷ later) ≡ a.time ∷ limited_times later
  limited_times-cons a later e = rw e refl

  step-limited :
      (n : ℕ) (a : Arrival) (cs : Counters)
      → InWindow n a
      → is_exempt a.request ≡ false
      → (through a cs ≡ (script_at a.time cs (counter_key n)).1)
        × (counted a cs (counter_key n) ≡ some (script_at a.time cs (counter_key n)).0)
  unfolding rate_limit
  step-limited n a cs h e =
      rw (e, h, eq_refl (counter_key n))
        (is_next-verdict a.headers a.request (script_at a.time cs (counter_key n)).1, refl)

  passed-passes :
      (n : ℕ) (later : List Arrival) (cs : Counters)
      → All (InWindow n) later
      → passed cs later
        ≡ passes (window_of rps burst) (limit_of burst) (cs (counter_key n)) (limited_times later)
  unfolding passed passes
  passed-passes n [] cs h = refl
  passed-passes n (a ∷ later) cs (h, hs) = elim (Bool-cases (is_exempt a.request)) [
    | inl e ↦ rw e (omega (arith, passed-passes n later cs hs))
    | inr e ↦
        let (goes, counts) = step-limited n a cs h e in
        let before : Option Counter = cs (counter_key n) in
        let done = script_at a.time cs (counter_key n) in
        ap (λ b. one_if b + passed (counted a cs) later) goes
        ∙ ap (λ m. one_if done.1 + m)
            (passed-passes n later (counted a cs) hs
              ∙ ap (λ c. passes (window_of rps burst) (limit_of burst) c (limited_times later))
                  counts)
        ∙ sym (
            ap (passes (window_of rps burst) (limit_of burst) before)
              (limited_times-cons a later e))
  ]

  window_of-pos : 0 < window_of rps burst
  unfolding window_of
  window_of-pos = ground arith

  in_window :
      (n t : ℕ)
      → t / window_of rps burst ≡ n
      → Within (window_of rps burst) (window_of rps burst * n + window_of rps burst) t
  in_window n t h =
      let whole = div-add-mod t (window_of rps burst) in
      let part = mod-lt t window_of-pos in
      let same : window_of rps burst * (t / window_of rps burst) ≡ window_of rps burst * n =
        ap (λ k. window_of rps burst * k) h in
      (omega (arith, whole, part, same), omega (arith, whole, part, same))

  limited_times-Within :
      (n : ℕ) (later : List Arrival)
      → All (InWindow n) later
      → All
          (Within (window_of rps burst) (window_of rps burst * n + window_of rps burst))
          (limited_times later)
  limited_times-Within n [] h = tt
  limited_times-Within n (a ∷ later) (h, hs) = elim (Bool-cases (is_exempt a.request)) [
    | inl e ↦ rw e (limited_times-Within n later hs)
    | inr e ↦ rw e (in_window n a.time h, limited_times-Within n later hs)
  ]

  -- Of the requests of one client in one window of `RateLimit`, in any number, at any times of the
  -- window and in any order, at most the limit go through, those for /health and /healthz, which
  -- are not limited, not counted. The conditions: Redis answers every time, and has no counter of
  -- that client and window before.
  pub passed-le-limit_of :
      (n : ℕ) (cs : Counters) (arrivals : List Arrival)
      → All (InWindow n) arrivals
      → cs ("ratelimit:" <> ip <> ":" <> shown n) ≡ none
      → passed cs arrivals ≤ limit_of burst
  passed-le-limit_of n cs arrivals h fresh =
      let bound =
        passes-le-limit (window_of rps burst) (limit_of burst)
          (window_of rps burst * n + window_of rps burst) (limited_times arrivals)
          (limited_times-Within n arrivals h) in
      let same =
        passed-passes n arrivals cs h
        ∙ ap (λ c. passes (window_of rps burst) (limit_of burst) c (limited_times arrivals))
            fresh in
      omega (arith, bound, same)
