-- ===== src/Gateway/HlsToken.antt =====
-- Signed stream tokens and the handler that hands them out: `GenerateHLSToken`,
-- `validateHLSToken`, `validateAccessToken` and `HLSTokenHandler` of
-- services/gateway/internal/middleware/hlsauth.go.
pub mod Laws
use Prim.Native.Char.{Char, code}
use flowix.Common.{
  ℕ, ◌+◌, String, ◌<>◌, Bool, true, false, ◌||◌, ◌&&◌, not, Option, none, some, List, [], ◌∷◌, ◌==◌,
  leb, eqb, length, if◌then◌else◌,
}
use flowix.Common.Text.{equal_fold, split, trim_prefix, has_prefix}
use flowix.Http.{Request, header}
use flowix.Auth.{no_bearer, bearer}
use flowix.Auth.Token.{Jwt, Claims, Parsed, rejected, accepted}
use flowix.Gateway.MetaCache.{VideoMeta}

-- `hlsTokenTTL` in seconds.
abbrev pub hls_token_ttl : ℕ
hls_token_ttl = 900

abbrev pub hls_claims : ℕ → String → String → Claims
hls_claims now video_id user_id = record {
  text = λ k.
      if k == "sub"
      then user_id
      else if k == "video_id"
      then video_id
      else if k == "type"
      then "hls"
      else "";
  exp = now + hls_token_ttl;
  iat = now;
}

-- What `fetchVideoMeta` gives: a video, a `statusError`, or another error.
pub data Fetched : Type 0 where
  found : VideoMeta → Fetched
  status_error : ℕ → Fetched
  failed : Fetched

abbrev option_or : String → Option String → String
option_or d none = d
option_or d (some s) = s

pub data TokenReply : Type 0 where
  refused : ℕ → String → TokenReply
  issued : String → ℕ → String → TokenReply

trim_slashes_left : String → String
trim_slashes_left String.[] = ""
trim_slashes_left (String.◌∷◌ c s) =
    let rest = trim_slashes_left s in if eqb (code c) b'/' then rest else String.◌∷◌ c s

abbrev attach : Char → String → String
attach c String.[] = if eqb (code c) b'/' then "" else String.◌∷◌ c ""
attach c (String.◌∷◌ d s) = String.◌∷◌ c (String.◌∷◌ d s)

trim_slashes_right : String → String
trim_slashes_right String.[] = ""
trim_slashes_right (String.◌∷◌ c s) = attach c (trim_slashes_right s)

-- The loop over the parts of the path: the part behind the first `videos` that has one behind it.
part_after_videos : List String → String
part_after_videos [] = ""
part_after_videos (p ∷ []) = ""
part_after_videos (p ∷ q ∷ parts) = if p == "videos" then q else part_after_videos (q ∷ parts)

id_of_parts : List String → String
id_of_parts parts = if leb 4 (length parts) then part_after_videos parts else ""

-- The handler's three ways to the video id: chi's parameter, the query, the parts of the path.
unfoldable pub requested_id : Request → String
unfolding trim_slashes_left trim_slashes_right part_after_videos id_of_parts split
requested_id r =
    if not (r.param "id" == "")
    then r.param "id"
    else if not (r.query "id" == "")
    then r.query "id"
    else id_of_parts (split b'/' (trim_slashes_right (trim_slashes_left r.path)))

module _ (jwt : Jwt) (now : ℕ) (secret : String) where
  -- `GenerateHLSToken`
  unfoldable pub generate_hls_token : String → String → Option String
  generate_hls_token video_id user_id = jwt.sign secret (hls_claims now video_id user_id)

  check_hls : String → Parsed → Option String
  check_hls expected rejected = none
  check_hls expected (accepted none) = none
  check_hls expected (accepted (some c)) =
      if not (c.text "type" == "hls")
      then none
      else if c.text "video_id" == "" || not (equal_fold (c.text "video_id") expected)
      then none
      else some (c.text "sub")

  -- `validateHLSToken`: the subject of a token for the video. The subject may be empty.
  unfoldable pub validate_hls_token : String → String → Option String
  unfolding check_hls equal_fold
  validate_hls_token token expected = check_hls expected (jwt.parse now secret token)

  check_access_token : Parsed → Option String
  check_access_token rejected = none
  check_access_token (accepted none) = none
  check_access_token (accepted (some c)) =
      if not (c.text "type" == "access")
      then none
      else if c.text "sub" == ""
      then none
      else some (c.text "sub")

  -- `validateAccessToken`
  unfoldable pub validate_access_token : Request → Option String
  unfolding check_access_token has_prefix trim_prefix
  validate_access_token r =
      if no_bearer r then none else check_access_token (jwt.parse now secret (bearer r))

  -- The user of the context, or of the bearer token if the middleware did not run.
  caller : Request → String
  caller r = if not (r.user == "") then r.user else option_or "" (validate_access_token r)

  issue : String → Option String → TokenReply
  issue video_id none = refused 500 "{\"error\":\"internal\"}"
  issue video_id (some token) =
      issued token hls_token_ttl ("/hls/" <> video_id <> "/master.m3u8?token=" <> token)

  issue_to_owner : String → String → Fetched → TokenReply
  issue_to_owner video_id user_id (status_error code) = refused 404 "{\"error\":\"not found\"}"
  issue_to_owner video_id user_id failed = refused 404 "{\"error\":\"not found\"}"
  issue_to_owner video_id user_id (found meta) =
      if not (meta.owner_id == user_id)
      then refused 403 "{\"error\":\"forbidden\"}"
      else issue video_id (generate_hls_token video_id user_id)

  -- `HLSTokenHandler`, over `fetchVideoMeta`.
  unfoldable pub hls_token_handler : (String → Fetched) → Request → TokenReply
  unfolding caller issue issue_to_owner requested_id validate_access_token generate_hls_token
  hls_token_handler fetch r =
      let user_id = caller r in
      let video_id = requested_id r in
      if user_id == ""
      then refused 401 "{\"error\":\"missing token\"}"
      else if video_id == ""
      then refused 400 "{\"error\":\"missing video id\"}"
      else issue_to_owner video_id user_id (fetch video_id)
