-- ===== src/Common/Text/Prefix.antt =====
-- A text has a prefix exactly when it is the prefix followed by what `trim_prefix` leaves.
use Prim.Native.String.{String, [], ◌∷◌, ◌++◌}
use mathlib.Core.Path.{◌≡◌, refl, ap₂, ◌∙◌}
use mathlib.Core.Logic.{◌≢◌}
use mathlib.Core.Bool.{true}
use native.Mathlib.Omega.{arith}
use text.Mathlib.TextEquality.{Char-path}
use text.Mathlib.TextLemmas.{nil-append, cons-append, cons≢nil}
use flowix.Common.Text.{has_prefix, drop_chars, trim_prefix}

drop_chars-append : (p t : String) → drop_chars (p ++ t) p ≡ t
drop_chars-append [] t = rw nil-append refl
drop_chars-append (c ∷ p) t = rw cons-append (drop_chars-append p t)

pub has_prefix-append : (p t : String) → has_prefix (p ++ t) p ≡ true
unfolding has_prefix
has_prefix-append [] t = refl
has_prefix-append (c ∷ p) t = rw cons-append (ground (arith, has_prefix-append p t))

pub trim_prefix-append : (p t : String) → trim_prefix (p ++ t) p ≡ t
unfolding trim_prefix
trim_prefix-append p t = rw has_prefix-append (drop_chars-append p t)

append-drop_chars : (s p : String) → has_prefix s p ≡ true → p ++ drop_chars s p ≡ s
unfolding has_prefix
append-drop_chars s [] h = nil-append s
append-drop_chars [] (d ∷ p) h = cc
append-drop_chars (c ∷ s) (d ∷ p) h =
    cons-append d p _
    ∙ ap₂ ◌∷◌ (Char-path d c (ground arith)) (append-drop_chars s p (ground arith))

pub append-trim_prefix : (s p : String) → has_prefix s p ≡ true → p ++ trim_prefix s p ≡ s
unfolding trim_prefix
append-trim_prefix s p h = rw h (append-drop_chars s p h)

-- A text with a prefix that is not empty is not empty.
pub ne-nil_of_has_prefix : (s p : String) → p ≢ "" → has_prefix s p ≡ true → s ≢ ""
unfolding has_prefix
ne-nil_of_has_prefix s [] n h = absurd (n refl)
ne-nil_of_has_prefix [] (d ∷ p) n h = cc
ne-nil_of_has_prefix (c ∷ s) (d ∷ p) n h = λ e. cons≢nil e
