-- ===== src/Platform/Ownership.antt =====
-- The owner check of the upload service (services/upload/internal/handler/ownership.go, by
-- `GetVideoOwner`) run against the metadata service.
use flowix.Common.{
  ◌≡◌, ap, ◌∙◌, refl, String, Bool, true, false, ◌&&◌, not, Option, none, some, [], ◌==◌, map,
  if◌then◌else◌, inl, inr, Bool-cases,
}
use flowix.Common.Text.{contains, has_prefix}
use flowix.Metadata.Model.{Video, StaleUpload}
use flowix.Metadata.Database.{VideoRow, Database, row_of}
use flowix.Metadata.Repository
use flowix.Metadata.Repository.{Result, get_by_id, read_video}
use flowix.Metadata.Handler.{Payload, video, stale, empty, get_video, show_video, presign_thumbnail}
use flowix.Metadata.Server.{Setup, Answer, refused, replied}
use flowix.Upload.{Outcome, ok, Reply, write_error, require_ownership}
use flowix.Upload.Client.{Body, Response, get_video_owner}
use flowix.Platform.{
  sign_thumbnail-rest, ask, status_text, trusted, ask_of_trusted, ask_of_untrusted,
}

abbrev blank : Body
blank = record { id = ""; owner_id = ""; stale = [] }

-- The client's view of a JSON object: a field that the object does not have is the zero value.
abbrev decoded : Payload → Option Body
decoded (video v) = some (record blank { id = v.id; owner_id = v.owner_id })
decoded (stale us) = some (record blank {
  stale = map (λ (u : StaleUpload). record { id = u.id; owner_id = u.owner_id }) us;
})
decoded empty = none
decoded p = some blank

abbrev pub answered : Answer → Response
answered (refused code) = record { status = code; shown = status_text code; body = some blank }
answered (replied r) = record {
  status = r.status;
  shown = status_text r.status;
  body = decoded r.payload;
}

-- `GetVideoOwner` with a token, answered by the metadata service.
unfoldable pub owner_of : Setup → Database → String → String → Outcome String
unfolding ask get_video_owner
owner_of st db token id = get_video_owner (ok (answered (ask st db token id)))

-- What the check is to say, from the tables alone.
abbrev pub owner_check : Bool → Option VideoRow → String → Option Reply
owner_check false o user = some (write_error 502 "metadata unavailable")
owner_check true none user = some (write_error 404 "video not found")
owner_check true (some r) user =
    if r.owner_id == user then none else some (write_error 403 "forbidden")

-- The check on what the repository gives.
abbrev result_check : Result Video → String → Option Reply
result_check (Repository.ok v) user =
    if v.owner_id == user then none else some (write_error 403 "forbidden")
result_check (Repository.err Repository.not_found) user = some (write_error 404 "video not found")
result_check (Repository.err e) user = some (write_error 502 "metadata unavailable")

module _ (st : Setup) (db : Database) (token id user : String) where
  shown_check :
      (p : Result Video)
      → require_ownership
          (get_video_owner (ok (answered (replied (show_video st.storage false "" p)))))
          user
        ≡ result_check p user
  unfolding require_ownership get_video_owner contains presign_thumbnail has_prefix
  shown_check (Repository.ok v) =
      rw (ap (λ (w : Video). w.owner_id) (sign_thumbnail-rest st.storage v v.thumbnail_s3_key)) refl
  shown_check (Repository.err Repository.not_found) = refl
  shown_check (Repository.err Repository.forbidden) = refl
  shown_check (Repository.err Repository.invalid_visibility) = refl
  shown_check (Repository.err Repository.no_rows) = refl
  shown_check (Repository.err Repository.db_error) = refl

  refused_check :
      require_ownership (get_video_owner (ok (answered (refused 401)))) user
      ≡ some (write_error 502 "metadata unavailable")
  unfolding require_ownership get_video_owner contains has_prefix
  refused_check = refl

  read_check :
      (o : Option VideoRow)
      → result_check (read_video st.faults db o) user ≡ owner_check true o user
  read_check none = refl
  read_check (some r) = elim (Bool-cases (st.faults 1)) [ inl e ↦ rw e refl | inr e ↦ rw e refl ]

  ask_check :
      (a : Bool)
      → trusted st token ≡ a
      → require_ownership (owner_of st db token id) user
        ≡ owner_check (a && not (st.faults 0)) (row_of (st.uuid id) db.videos) user
  unfolding owner_of get_video get_by_id
  ask_check true e = rw (ask_of_trusted st db token id e) (elim (Bool-cases (st.faults 0)) [
    | inl f ↦ rw f (shown_check (Repository.err Repository.db_error))
    | inr f ↦ rw f (
        shown_check (read_video st.faults db (row_of (st.uuid id) db.videos))
        ∙ read_check (row_of (st.uuid id) db.videos))
  ])
  ask_check false e = rw (ask_of_untrusted st db token id e) refused_check

  -- The check of the upload service, answered by the metadata service, says what the tables say:
  -- with a token that the service trusts and a database that answers, the owner passes, 403 goes to
  -- others and 404 to everyone if there is no such video; otherwise the answer is 502.
  pub require_ownership-eq-owner_check :
      require_ownership (owner_of st db token id) user
      ≡ owner_check (trusted st token && not (st.faults 0)) (row_of (st.uuid id) db.videos) user
  require_ownership-eq-owner_check = ask_check (trusted st token) refl
