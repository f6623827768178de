-- ===== src/Gateway/VideoId.antt =====
-- The id of a video in the path of a stream: `extractVideoID` of
-- services/gateway/internal/middleware/hlsauth.go, which matches `/hls/([0-9a-fA-F-]{36})`
-- anywhere in the path and takes the leftmost match.
use Prim.Native.Char.{code}
use Prim.Native.String.{[], ◌∷◌}
use flowix.Common.{
  ℕ, zero, suc, String, Bool, true, false, ◌&&◌, ◌||◌, Option, none, some, eqb, leb, if◌then◌else◌,
}
use flowix.Common.Text.{has_prefix, trim_prefix}

-- One code point of the class `[0-9a-fA-F-]`.
abbrev is_id_char : ℕ → Bool
is_id_char c =
    (leb 48 c && leb c 57) || (leb 97 c && leb c 102) || (leb 65 c && leb c 70) || eqb c 45

abbrev cons? : Option String → Bool → (String → String) → Option String
cons? none b f = none
cons? (some s) true f = some (f s)
cons? (some s) false f = none

-- The first n code points, if they are there and all in the class.
unfoldable pub id_chars : ℕ → String → Option String
id_chars zero s = some ""
id_chars (suc n) [] = none
id_chars (suc n) (c ∷ s) = cons? (id_chars n s) (is_id_char (code c)) (λ t. c ∷ t)

-- The match at the start of the text.
unfoldable pub match_here : String → Option String
unfolding id_chars has_prefix trim_prefix
match_here s = if has_prefix s "/hls/" then id_chars 36 (trim_prefix s "/hls/") else none

abbrev first_of : Option String → String → String
first_of none later = later
first_of (some id) later = id

-- `extractVideoID`: "" where nothing matches.
unfoldable pub extract_video_id : String → String
unfolding match_here
extract_video_id [] = ""
extract_video_id (c ∷ s) = first_of (match_here (c ∷ s)) (extract_video_id s)
