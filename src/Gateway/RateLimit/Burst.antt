-- ===== src/Gateway/RateLimit/Burst.antt =====
-- How many requests pass in a window.
use mathlib.Core.Path.{subst}
use flowix.Common.{
  ℕ, ◌+◌, ◌≤◌, ◌<◌, ◌≡◌, ◌⊎◌, inl, inr, refl, sym, ap, Bool, true, false, not, Option, none, some,
  List, [], ◌∷◌, All, eqb, ltb, leb, arith, Bool-cases,
}
use flowix.Gateway.RateLimit.{Counter, run_script}

abbrev pub one_if : Bool → ℕ
one_if true = 1
one_if false = 0

-- How many of the requests at these times pass, one after the other.
unfoldable pub passes : ℕ → ℕ → Option Counter → List ℕ → ℕ
unfolding run_script
passes window limit c [] = 0
passes window limit c (t ∷ ts) =
    one_if (run_script t window limit c).1
    + passes window limit (some (run_script t window limit c).0) ts

-- Times of one window, which ends at `end` and is no longer than `window`.
abbrev pub Within : ℕ → ℕ → ℕ → Type 0
Within window end t = (t < end) × (end ≤ t + window)

step_count :
    (t window limit : ℕ) (c : Counter)
    → 1 ≤ c.count
    → t < c.expires
    → run_script t window limit (some c)
      ≡ (record { count = c.count + 1; expires = c.expires }, not (ltb limit (c.count + 1)))
unfolding run_script
step_count t window limit c one h =
    let a : leb c.expires t ≡ false = ground arith in
    let b : eqb (c.count + 1) 1 ≡ false = ground arith in rw (a, b) refl

abbrev after : ℕ → ℕ → List ℕ → Counter × Bool → ℕ
unfolding passes
after window limit ts p = one_if p.1 + passes window limit (some p.0) ts

passes_step :
    (window limit t : ℕ) (c : Counter) (ts : List ℕ)
    → 1 ≤ c.count
    → t < c.expires
    → passes window limit (some c) (t ∷ ts)
      ≡ one_if (not (ltb limit (c.count + 1)))
        + passes window limit (some (record { count = c.count + 1; expires = c.expires })) ts
unfolding passes
passes_step window limit t c ts one h =
    ap (after window limit ts) (step_count t window limit c one h)

bound_step :
    (limit n m : ℕ)
    → (m + (n + 1) ≤ limit) ⊎ (m ≡ 0)
    → (one_if (not (ltb limit (n + 1))) + m + n ≤ limit)
      ⊎ (one_if (not (ltb limit (n + 1))) + m ≡ 0)
bound_step limit n m h = elim (Bool-cases (ltb limit (n + 1))) [
  | inl e ↦ rw e (ground (arith, h))
  | inr e ↦ rw e (ground (arith, h))
]

passes-some :
    (window limit end : ℕ) (c : Counter) (ts : List ℕ)
    → 1 ≤ c.count
    → end ≤ c.expires
    → All (Within window end) ts
    → (passes window limit (some c) ts + c.count ≤ limit) ⊎ (passes window limit (some c) ts ≡ 0)
unfolding passes
passes-some window limit end c [] one h k = inr refl
passes-some window limit end c (t ∷ ts) one h ((lt, le), ks) =
    let ih =
      passes-some window limit end (record { count = c.count + 1; expires = c.expires }) ts
        (omega (arith, one)) h ks in
    subst (λ n. (n + c.count ≤ limit) ⊎ (n ≡ 0))
      (sym (passes_step window limit t c ts one (omega (arith, lt, h))))
      (bound_step limit c.count _ ih)

-- Of the calls of the script for one key at times of one window, at most `limit` say yes, if there
-- is no counter before.
pub passes-le-limit :
    (window limit end : ℕ) (ts : List ℕ)
    → All (Within window end) ts
    → passes window limit none ts ≤ limit
unfolding passes run_script
passes-le-limit window limit end [] k = omega arith
passes-le-limit window limit end (t ∷ ts) ((lt, le), ks) =
    let ih =
      passes-some window limit end (record { count = 1; expires = t + window }) ts (omega arith) le
        ks in
    elim (Bool-cases (ltb limit 1)) [
      | inl e ↦ rw e (ground (arith, ih))
      | inr e ↦ rw e (ground (arith, ih))
    ]
