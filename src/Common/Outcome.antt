-- ===== src/Common/Outcome.antt =====
-- Go's pair of a value and an error, of which one counts.
use flowix.Common.{String, ◌<>◌}

-- A result or the text of an error.
pub data Outcome {ℓ} (A : Type ℓ) : Type ℓ where
  ok : A → Outcome A
  fail : String → Outcome A

-- `fmt.Errorf` around an error.
abbrev pub about {ℓ} : {A : Type ℓ} → String → Outcome A → Outcome A
about msg (ok a) = ok a
about msg (fail e) = fail (msg <> ": " <> e)
