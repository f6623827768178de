-- ===== src/Common/Text.antt =====
-- The parts of Go's `strings` package that the services use, over code points. Go compares bytes;
-- on UTF-8 texts the two agree.
pub mod Prefix
use Prim.Native.Char.{Char, code}
use Prim.Native.String.{String, [], ◌∷◌}
use mathlib.Core.Bool.{Bool, true, false, ◌&&◌, ◌||◌}
use mathlib.Core.List.{List}
use Prim.Native.Nat.{ℕ, zero, suc, ◌+◌}
use text.Mathlib.Text.{◌==◌}
use flowix.Common.Tests.{leb, eqb, if◌then◌else◌}

-- `strings.HasPrefix s p`
unfoldable pub has_prefix : String → String → Bool
has_prefix s [] = true
has_prefix [] (d ∷ p) = false
has_prefix (c ∷ s) (d ∷ p) = eqb (code c) (code d) && has_prefix s p

abbrev drop_chars : String → String → String
drop_chars s [] = s
drop_chars [] (d ∷ p) = []
drop_chars (c ∷ s) (d ∷ p) = drop_chars s p

-- `strings.TrimPrefix s p`
unfoldable pub trim_prefix : String → String → String
unfolding has_prefix
trim_prefix s p = if has_prefix s p then drop_chars s p else s

-- `unicode.IsSpace`
abbrev is_space : ℕ → Bool
is_space c =
    (leb 9 c && leb c 13)
    || eqb c 32
    || eqb c 0x85
    || eqb c 0xA0
    || eqb c 0x1680
    || (leb 0x2000 c && leb c 0x200A)
    || eqb c 0x2028
    || eqb c 0x2029
    || eqb c 0x202F
    || eqb c 0x205F
    || eqb c 0x3000

trim_left : String → String
trim_left [] = []
trim_left (c ∷ s) = let rest = trim_left s in if is_space (code c) then rest else c ∷ s

abbrev attach : Char → String → String
attach c [] = if is_space (code c) then [] else c ∷ []
attach c (d ∷ s) = c ∷ d ∷ s

trim_right : String → String
trim_right [] = []
trim_right (c ∷ s) = attach c (trim_right s)

-- `strings.TrimSpace`
unfoldable pub trim_space : String → String
unfolding trim_left trim_right
trim_space s = trim_right (trim_left s)

abbrev pub extend : Char → List String → List String
extend c List.[] = List.◌∷◌ (c ∷ []) List.[]
extend c (List.◌∷◌ w ws) = List.◌∷◌ (c ∷ w) ws

-- `strings.Split s sep` for a separator of one code point.
unfoldable pub split : ℕ → String → List String
split sep [] = List.◌∷◌ [] List.[]
split sep (c ∷ s) =
    let rest = split sep s in if eqb (code c) sep then List.◌∷◌ [] rest else extend c rest

-- Letters to lower case, code point by code point. Besides ASCII only the two letters that Go
-- maps into ASCII are folded: the Kelvin sign and the dotted capital I.
abbrev lower_code : ℕ → ℕ
lower_code c =
    if leb 65 c && leb c 90
    then c + 32
    else if eqb c 0x212A
    then 107
    else if eqb c 0x130
    then 105
    else c

-- `strings.ToLower s == t`, for a `t` that is in lower case and ASCII.
unfoldable pub lower_eq : String → String → Bool
lower_eq [] [] = true
lower_eq [] (d ∷ t) = false
lower_eq (c ∷ s) [] = false
lower_eq (c ∷ s) (d ∷ t) = eqb (lower_code (code c)) (code d) && lower_eq s t

-- `strings.HasPrefix (strings.ToLower s) p`, for a `p` that is in lower case and ASCII.
unfoldable pub lower_has_prefix : String → String → Bool
lower_has_prefix s [] = true
lower_has_prefix [] (d ∷ p) = false
lower_has_prefix (c ∷ s) (d ∷ p) = eqb (lower_code (code c)) (code d) && lower_has_prefix s p

-- `strings.EqualFold`, where one side is ASCII without the letters k and s (as a video id is).
unfoldable pub equal_fold : String → String → Bool
equal_fold [] [] = true
equal_fold [] (d ∷ t) = false
equal_fold (c ∷ s) [] = false
equal_fold (c ∷ s) (d ∷ t) = eqb (lower_code (code c)) (lower_code (code d)) && equal_fold s t

abbrev cut_code : Char → Bool → String → String
cut_code c stop rest = if stop then [] else c ∷ rest

-- The text before the first `sep`, or the whole text if there is none.
unfoldable pub before : ℕ → String → String
before sep [] = []
before sep (c ∷ s) = cut_code c (eqb (code c) sep) (before sep s)

abbrev strip : Char → String → String → Bool → String
strip c s rest true = []
strip c s rest false = c ∷ rest

-- `strings.TrimSuffix s t`
unfoldable pub trim_suffix : String → String → String
trim_suffix [] t = []
trim_suffix (c ∷ s) t = strip c s (trim_suffix s t) ((c ∷ s) == t)

-- `strings.Contains s p`
unfoldable pub contains : String → String → Bool
unfolding has_prefix
contains [] p = has_prefix [] p
contains (c ∷ s) p = has_prefix (c ∷ s) p || contains s p

-- A text without its first code points: `s[n:]`, or "" if the text is no longer than that.
unfoldable pub skip : ℕ → String → String
skip zero s = s
skip (suc n) [] = []
skip (suc n) (c ∷ s) = skip n s
