-- ===== src/Gateway/HlsAuth.antt =====
-- The guard of the streams: `fetchVideoMeta`, `HLSAuth` and `hlsCacheWriter` of
-- services/gateway/internal/middleware/hlsauth.go. Times are in nanoseconds; the token library gets
-- them in seconds.
pub mod Access
pub mod Caching
pub mod Concurrent
use flowix.Common.{
  ℕ, zero, suc, ◌/◌, String, ◌<>◌, Bool, true, false, ◌||◌, ◌&&◌, not, Option, none, some, ◌==◌,
  eqb, if◌then◌else◌,
}
use flowix.Common.Text.{trim_suffix}
use flowix.Http.{Request, Headers, header, set, set_header}
use flowix.Auth.Token.{Jwt}
use flowix.Gateway.VideoId.{extract_video_id}
use flowix.Gateway.MetaCache.{VideoMeta, Entry, MetaCache, get, put}
use flowix.Gateway.HlsToken.{
  Fetched, found, status_error, failed, validate_hls_token, validate_access_token,
}

abbrev pub second : ℕ
second = 1000000000

-- What the metadata service answers to a GET of a URL with an internal token ("" if none is sent):
-- nothing if the call fails, else a status and the decoded body, if it decodes.
abbrev pub MetadataCall : Type 0
MetadataCall = String → String → Option (ℕ × Option VideoMeta)

abbrev decode_meta : Option VideoMeta → Fetched
decode_meta none = failed
decode_meta (some v) = found (if v.visibility == "" then record v { visibility = "public" } else v)

abbrev pub read_answer : Option (ℕ × Option VideoMeta) → Fetched
read_answer none = failed
read_answer (some (code, body)) = if not (eqb code 200) then status_error code else decode_meta body

-- `fetchVideoMeta`
unfoldable pub fetch_video_meta : MetadataCall → String → String → String → Fetched
unfolding trim_suffix
fetch_video_meta call url token id =
    read_answer (call (trim_suffix url "/" <> "/internal/videos/" <> id) token)

-- What the guard does: it answers, passes the request on as it is, or passes it on with a response
-- writer that stamps the cache headers of a visibility.
pub data Verdict : Type 0 where
  refused : ℕ → String → Verdict
  passed : Request → Verdict
  stamped : String → Request → Verdict

pub of_entry : Entry → Option VideoMeta → Fetched
of_entry e none = status_error e.err_status
of_entry e (some meta) = found meta

-- A metadata answer goes into the cache: a video, or the statuses 404 and 403.
unfoldable pub remember : ℕ → String → MetaCache → Fetched → MetaCache
remember now id c (found meta) = put now id (some meta) 0 c
remember now id c (status_error code) =
    if eqb code 404 || eqb code 403 then put now id none code c else c
remember now id c failed = c

get_meta_after : ℕ → String → (String → Fetched) → Option Entry × MetaCache → Fetched × MetaCache
get_meta_after now id fetch (some e, c) = (of_entry e e.meta, c)
get_meta_after now id fetch (none, c) = (fetch id, remember now id c (fetch id))

-- `getMeta` of `HLSAuth`. The lock is not held over the call, so another request may come between
-- the two steps; this is the run without one.
unfoldable pub get_meta : ℕ → (String → Fetched) → String → MetaCache → Fetched × MetaCache
unfolding of_entry remember get_meta_after get put
get_meta now fetch id c = get_meta_after now id fetch (get now id c)

abbrev owns : Option String → String → Bool
owns none owner = false
owns (some sub) owner = sub == owner

module _ (jwt : Jwt) (now : ℕ) (secret : String) where
  abbrev token_param : Request → String
  token_param r = if r.query "token" == "" then header r "X-Hls-Token" else r.query "token"

  abbrev stamp_access : VideoMeta → String → Request → Option String → Verdict
  stamp_access meta vis r none = refused 403 "{\"error\":\"forbidden: private video\"}"
  stamp_access meta vis r (some sub) =
      if sub == meta.owner_id
      then stamped vis (set_header "X-User-Id" sub r)
      else refused 403 "{\"error\":\"forbidden: private video\"}"

  -- The part behind the visibility test.
  private_access : VideoMeta → String → String → Request → Verdict
  private_access meta vis id r =
      if not (token_param r == "")
        && owns (validate_hls_token jwt (now / second) secret (token_param r) id) meta.owner_id
      then stamped vis r
      else stamp_access meta vis r (validate_access_token jwt (now / second) secret r)

  abbrev visibility_of : VideoMeta → String
  visibility_of meta = if meta.visibility == "" then "public" else meta.visibility

  judge : String → Request → Fetched → Verdict
  judge id r failed = refused 502 "{\"error\":\"upstream unavailable\"}"
  judge id r (status_error code) =
      if eqb code 404 then passed r else refused 502 "{\"error\":\"upstream unavailable\"}"
  judge id r (found meta) =
      if visibility_of meta == "public" || visibility_of meta == "unlisted"
      then stamped (visibility_of meta) r
      else private_access meta (visibility_of meta) id r

  abbrev judge_meta : String → Request → Fetched × MetaCache → Verdict × MetaCache
  judge_meta id r (f, c) = (judge id r f, c)

  -- `HLSAuth`
  unfoldable pub hls_auth : (String → Fetched) → Request → MetaCache → Verdict × MetaCache
  unfolding private_access judge get_meta validate_hls_token validate_access_token extract_video_id
  hls_auth fetch r c =
      if extract_video_id r.path == ""
      then (passed r, c)
      else judge_meta (extract_video_id r.path) r (get_meta now fetch (extract_video_id r.path) c)

-- `hlsCacheWriter.WriteHeader`: the headers of the response as they go out. Only the first call
-- stamps them.
unfoldable pub write_header : String → Bool → Headers → Headers
write_header vis true h = h
write_header vis false h =
    if vis == "private"
    then set "Surrogate-Control" "max-age=10" (
        set "Cdn-Cache-Control" "private, max-age=10" (set "Cache-Control" "private, max-age=10" h))
    else if h "Cache-Control" == ""
    then set "Cache-Control" "public, max-age=86400" h
    else h
