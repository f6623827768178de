-- ===== src/Platform.antt =====
-- How the services work together: the clients of the metadata service in
-- services/upload/internal/client/metadata.go and services/gateway/internal/middleware/hlsauth.go,
-- over the routes of services/metadata/cmd/server/main.go. The network is taken to bring each
-- request and its answer, and an id to be the same text on both sides of a URL, as it is for a
-- UUID.
pub mod Ownership
pub mod Streams
pub mod Creation
pub mod Startup
pub mod Stale
mod Tests
use flowix.Common.{
  ◌≡◌, ap, refl, ◌||◌, inl, inr, String-cases, Bool-cases, arith, eq_iff, ℕ, ◌+◌, ◌/◌, ◌%◌, String,
  ◌<>◌, Bool, true, false, Option, none, some, List, [], ◌==◌, eqb, if◌then◌else◌,
}
use flowix.Http.{Request, no_headers, set, header, http_error, next}
use flowix.Auth.{internal_auth}
use flowix.Metadata.Model.{Video}
use flowix.Metadata.Database.{Database}
use flowix.Metadata.Handler.{
  get_video, sign_thumbnail, signed_url, Url, Storage, no_storage, remover, presigner,
}
use flowix.Metadata.Server.{
  Setup, Bodies, Route, internal, get_internal, Answer, refused, replied, serve, handle,
  handle_next,
}

abbrev get_internal_route : Route
get_internal_route = record {
  method = "GET";
  pattern = "/internal/videos/{id}";
  guard = internal;
  operation = get_internal;
}

-- A request that a client sends for a video: the header is left out where the token is empty.
abbrev pub internal_request : String → String → Request
internal_request token id = record {
  method = "GET";
  path = "/internal/videos/" <> id;
  headers = if token == "" then no_headers else set "X-Internal-Token" token no_headers;
  query = λ _. "";
  param = λ k. if k == "id" then id else "";
  remote_addr = "";
  user = "";
}

abbrev pub no_bodies : Bodies
no_bodies = record { creation = none; change = none; progress = none }

-- What the metadata service answers.
unfoldable pub ask : Setup → Database → String → String → Answer
unfolding serve
ask st db token id =
    (serve st get_internal_route no_bodies no_headers (internal_request token id) db).0

abbrev digit : ℕ → String
digit n =
    if eqb n 0
    then "0"
    else if eqb n 1
    then "1"
    else if eqb n 2
    then "2"
    else if eqb n 3
    then "3"
    else if eqb n 4
    then "4"
    else if eqb n 5
    then "5"
    else if eqb n 6
    then "6"
    else if eqb n 7
    then "7"
    else if eqb n 8
    then "8"
    else "9"

-- `%d` for a status of HTTP, which has three digits.
abbrev pub status_text : ℕ → String
status_text n = digit (n / 100) <> digit (n / 10 % 10) <> digit (n % 10)

-- The client has the service's token, or the service runs without one.
abbrev pub trusted : Setup → String → Bool
trusted st token = st.internal_token == "" || token == st.internal_token

abbrev without_url : Video → Video
without_url v = record v { thumbnail_url = none }

-- Signing changes a video in its thumbnail's URL only.
pub sign_thumbnail-rest :
    (s : Storage) (v : Video) (k : Option String)
    → without_url (sign_thumbnail v k s) ≡ without_url v
sign_thumbnail-rest s v none = refl
sign_thumbnail-rest no_storage v (some k) = refl
sign_thumbnail-rest remover v (some k) = refl
sign_thumbnail-rest (presigner i p) v (some k) = elim (Bool-cases (k == "")) [
  | inl e ↦ rw e refl
  | inr e ↦ rw e (go (p k))
]
  where
    go : (o : Option Url) → without_url (signed_url v o) ≡ without_url v
    go none = refl
    go (some u) = refl

module _ (st : Setup) (db : Database) (token id : String) where
  sent_token : header (internal_request token id) "X-Internal-Token" ≡ token
  sent_token = elim (String-cases token "") [
    | inl (p, t) ↦ ground (arith, p, t)
    | inr (p, t) ↦ ground (arith, t)
  ]

  check_token :
      (b : Bool)
      → trusted st token ≡ b
      → internal_auth st.internal_token no_headers (internal_request token id) ≡ (
          if b
          then next no_headers (internal_request token id)
          else http_error no_headers "{\"error\":\"unauthorized internal\"}" 401)
  unfolding internal_auth
  check_token b e = ground (arith, e, sent_token)

  pub ask_of_trusted :
      trusted st token ≡ true
      → ask st db token id
        ≡ replied (get_video st.uuid st.storage false st.faults (internal_request token id) db)
  unfolding ask handle_next handle
  ask_of_trusted e = ap (λ s. (handle_next st get_internal no_bodies s db).0) (check_token true e)

  pub ask_of_untrusted : trusted st token ≡ false → ask st db token id ≡ refused 401
  unfolding ask handle_next http_error
  ask_of_untrusted e =
      ap (λ s. (handle_next st get_internal no_bodies s db).0) (check_token false e)
