-- ===== src/Platform/Streams.antt =====
-- The gateway's guard of the streams (`HLSAuth` by `fetchVideoMeta`,
-- services/gateway/internal/middleware/hlsauth.go) run against the metadata service.
use flowix.Common.{
  ℕ, ◌≡◌, ◌≢◌, ◌∙◌, ap, refl, sym, differ, String, ◌<>◌, Bool, true, false, Option, none, some,
  ◌==◌, if◌then◌else◌, inl, inr, Bool-cases,
}
use flowix.Common.Text.{trim_suffix, trim_prefix, has_prefix}
use flowix.Common.Text.Prefix.{has_prefix-append, trim_prefix-append}
use text.Mathlib.TextLemmas.{append_assoc}
use flowix.Http.{Request}
use flowix.Auth.Token.{Jwt}
use flowix.Metadata.Model.{Video}
use flowix.Metadata.Database.{VideoRow, Database, row_of}
use flowix.Metadata.Repository
use flowix.Metadata.Repository.{Result, get_by_id, read_video}
use flowix.Metadata.Handler.{Payload, video, empty, get_video, show_video, presign_thumbnail}
use flowix.Metadata.Server.{Setup, Answer, refused, replied}
use flowix.Gateway.VideoId.{extract_video_id}
use flowix.Gateway.MetaCache.{VideoMeta, MetaCache, get}
use flowix.Gateway.HlsToken.{Fetched, found, status_error}
use flowix.Gateway.HlsAuth
use flowix.Gateway.HlsAuth.{
  MetadataCall, fetch_video_meta, read_answer, hls_auth, get_meta, stamped,
}
use flowix.Gateway.HlsAuth.Caching.{get_meta_of_miss}
use flowix.Gateway.HlsAuth.Access.{MayWatch, hls_auth_private, forbidden}
use flowix.Platform.{sign_thumbnail-rest, ask, trusted, ask_of_trusted, ask_of_untrusted}

abbrev blank : VideoMeta
blank = record { id = ""; owner_id = ""; visibility = ""; status = "" }

-- The gateway's view of a JSON object.
abbrev decoded : Payload → Option VideoMeta
decoded (video v) =
    some (record { id = v.id; owner_id = v.owner_id; visibility = v.visibility; status = v.status })
decoded empty = none
decoded p = some blank

abbrev answered : Answer → Option (ℕ × Option VideoMeta)
answered (refused code) = some (code, some blank)
answered (replied r) = some (r.status, decoded r.payload)

-- The network from the gateway: the metadata service is at `base`, and nothing else answers.
unfoldable pub network : Setup → Database → String → MetadataCall
unfolding ask
network st db base url token =
    if has_prefix url (base <> "/internal/videos/")
    then answered (ask st db token (trim_prefix url (base <> "/internal/videos/")))
    else none

abbrev shown : VideoMeta → VideoMeta
shown m = if m.visibility == "" then record m { visibility = "public" } else m

-- The row as the gateway sees it.
abbrev pub meta_of : VideoRow → VideoMeta
meta_of r =
    shown
      (record { id = r.id; owner_id = r.owner_id; visibility = r.visibility; status = r.status })

-- What the lookup is to give, from the tables alone.
abbrev pub lookup : Bool → Bool → Option VideoRow → Fetched
lookup false f o = status_error 401
lookup true true o = status_error 500
lookup true false none = status_error 404
lookup true false (some r) = found (meta_of r)

module _ (st : Setup) (db : Database) (token url id : String) where
  arrives :
      (base : String)
      → network st db base (base <> "/internal/videos/" <> id) token ≡ answered (ask st db token id)
  unfolding network
  arrives base =
      rw
        (
          ← append_assoc base "/internal/videos/" id,
          trim_prefix-append (base <> "/internal/videos/") id,
          has_prefix-append (base <> "/internal/videos/") id,
        )
        refl

  abbrev meta_of_video : Video → VideoMeta
  meta_of_video v =
      shown
        (record { id = v.id; owner_id = v.owner_id; visibility = v.visibility; status = v.status })

  read_found :
      (v : Video)
      → read_answer (answered (replied (show_video st.storage false "" (Repository.ok v))))
        ≡ found (meta_of_video v)
  unfolding presign_thumbnail
  read_found v =
      ap (λ (w : Video). found (meta_of_video w))
        (sign_thumbnail-rest st.storage v v.thumbnail_s3_key)

  read_row :
      (o : Option VideoRow)
      → read_answer
          (answered (replied (show_video st.storage false "" (read_video st.faults db o))))
        ≡ lookup true false o
  read_row none = refl
  read_row (some r) = elim (Bool-cases (st.faults 1)) [
    | inl e ↦ rw e (read_found _)
    | inr e ↦ rw e (read_found _)
  ]

  read_asked :
      (a : Bool)
      → trusted st token ≡ a
      → read_answer (answered (ask st db token id))
        ≡ lookup a (st.faults 0) (row_of (st.uuid id) db.videos)
  unfolding get_video get_by_id
  read_asked true e = rw (ask_of_trusted st db token id e) (elim (Bool-cases (st.faults 0)) [
    | inl f ↦ rw f refl
    | inr f ↦ rw f (read_row (row_of (st.uuid id) db.videos))
  ])
  read_asked false e = rw (ask_of_untrusted st db token id e) refl

  -- The gateway's lookup, answered by the metadata service, gives what the tables say, with
  -- "public" for an empty visibility, and 401 or 500 where the token is wrong or the database does
  -- not answer.
  pub fetch_video_meta-eq-lookup :
      fetch_video_meta (network st db (trim_suffix url "/")) url token id
      ≡ lookup (trusted st token) (st.faults 0) (row_of (st.uuid id) db.videos)
  unfolding fetch_video_meta
  fetch_video_meta-eq-lookup =
      ap read_answer (arrives (trim_suffix url "/")) ∙ read_asked (trusted st token) refl

module _ (st : Setup) (db : Database) (token url : String) (jwt : Jwt) (now : ℕ) (secret : String)
    (r : Request) (c : MetaCache) where
  abbrev asked : String
  asked = extract_video_id r.path

  abbrev fetch : String → Fetched
  fetch = fetch_video_meta (network st db (trim_suffix url "/")) url token

  -- The guard's verdict, with the metadata service behind it.
  unfoldable pub watch : HlsAuth.Verdict
  unfolding hls_auth fetch_video_meta network
  watch = (hls_auth jwt now secret fetch r c).0

  -- A stream of a private video, asked for where the cache has no live entry: whoever is not
  -- refused with 403 is the owner of the row in the metadata table, by a stream token or an access
  -- token, and the owner is let through with the headers for private videos. The gateway has the
  -- token of the metadata service, and the database answers.
  pub watch_private :
      (row : VideoRow)
      → asked ≢ ""
      → (get now asked c).0 ≡ none
      → trusted st token ≡ true
      → st.faults 0 ≡ false
      → row_of (st.uuid asked) db.videos ≡ some row
      → row.visibility ≡ "private"
      → (watch ≢ forbidden jwt now secret → MayWatch jwt now secret (meta_of row) asked r)
        × (MayWatch jwt now secret (meta_of row) asked r
            → (r' : Request) × (watch ≡ stamped "private" r'))
  unfolding watch
  watch_private row named miss t f here vis =
      let seen : (meta_of row).visibility ≡ "private" = rw vis refl in
      let fetched : (get_meta now fetch asked c).0 ≡ found (meta_of row) =
        ap (λ p. p.0) (get_meta_of_miss now fetch asked c miss)
        ∙ fetch_video_meta-eq-lookup st db token url asked
        ∙ rw (t, f, here) refl in
      let (sound, complete) =
        hls_auth_private jwt now secret fetch r c (meta_of row) named fetched
          (λ e. differ "private" "" refl (sym seen ∙ e))
          (λ e. differ "private" "public" refl (sym seen ∙ e))
          (λ e. differ "private" "unlisted" refl (sym seen ∙ e)) in
      (sound, λ m. let (q, e) = complete m in (q, e ∙ ap (λ v. stamped v q) seen))
