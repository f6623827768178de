-- ===== src/Pkg/HttpServer/Grace.antt =====
-- How long a server waits at its end, and when it ends without an error.
use flowix.Common.{
  ◌<◌, ◌≡◌, ◌↔◌, refl, String, Option, none, some, ◌==◌, ltb, arith, Bool-cases, inl, inr,
}
use flowix.Common.Int.{ℤ, pos, negsuc}
use flowix.Common.Outcome.{Outcome, ok, fail}
use flowix.Pkg.Env.{Getenv}
use flowix.Pkg.HttpServer.{
  Timeouts, positive_or, parsed_or, grace_of, default_shutdown_grace, Server, new_server, Event,
  stopped, signal, shut_down, run,
}

abbrev pub IsPositive : ℤ → Type 0
IsPositive (pos n) = 0 < n
IsPositive (negsuc n) = ⊥

positive_or-IsPositive : (d t : ℤ) → IsPositive d → IsPositive (positive_or d t)
unfolding positive_or
positive_or-IsPositive d (negsuc n) h = h
positive_or-IsPositive d (pos n) h = elim (Bool-cases (ltb 0 n)) [
  | inl e ↦ rw e (ground (arith, e))
  | inr e ↦ rw e h
]

parsed_or-IsPositive : (d : ℤ) (o : Option ℤ) → IsPositive d → IsPositive (parsed_or d o)
unfolding parsed_or
parsed_or-IsPositive d none h = h
parsed_or-IsPositive d (some t) h = positive_or-IsPositive d t h

module _ (parse_duration : String → Option ℤ) (env : Getenv) (t : Timeouts) where
  grace_of-IsPositive : IsPositive (grace_of parse_duration env t)
  unfolding grace_of
  grace_of-IsPositive =
      let d = positive_or default_shutdown_grace t.shutdown_grace in
      let h = positive_or-IsPositive default_shutdown_grace t.shutdown_grace (omega arith) in
      elim (Bool-cases (env "SHUTDOWN_GRACE" == "")) [
        | inl e ↦ rw e h
        | inr e ↦ rw e (parsed_or-IsPositive d (parse_duration (env "SHUTDOWN_GRACE")) h)
      ]

  shut_down-eq-ok : (o : Outcome (Unit {0})) → shut_down o ≡ ok tt → o ≡ ok tt
  shut_down-eq-ok (ok u) h = refl
  shut_down-eq-ok (fail e) h = cc

  -- A server ends without an error exactly when a signal ends it and its requests in flight are
  -- done within the grace, which is a positive time whatever the caller and SHUTDOWN_GRACE say.
  pub run_iff :
      (listen : Server → Event) (shutdown : Server → ℤ → Outcome (Unit {0})) (addr : String)
      → IsPositive (grace_of parse_duration env t)
        × ((run parse_duration env listen shutdown addr t ≡ ok tt) ↔ (
            (listen (new_server addr t) ≡ signal)
            × (shutdown (new_server addr t) (grace_of parse_duration env t) ≡ ok tt)))
  unfolding run
  run_iff listen shutdown addr =
      (grace_of-IsPositive, (go (listen (new_server addr t)), λ (s, e). rw (run, s, e) refl))
    where
      go :
          (v : Event)
          → elim v as (λ x. Outcome (Unit {0})) [
            | stopped e ↦ fail e
            | signal ↦ shut_down (shutdown (new_server addr t) (grace_of parse_duration env t))
          ]
            ≡ ok tt
          → (v ≡ signal) × (shutdown (new_server addr t) (grace_of parse_duration env t) ≡ ok tt)
      go (stopped e) h = cc
      go signal h = (refl, shut_down-eq-ok _ h)
