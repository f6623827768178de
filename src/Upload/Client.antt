-- ===== src/Upload/Client.antt =====
-- services/upload/internal/client/metadata.go: the client of the metadata service. The transport is
-- a parameter: it gives a response, or the text of an error.
use flowix.Common.{
  ℕ, ◌≡◌, refl, ap, String, ◌<>◌, Bool, true, false, ◌&&◌, not, Option, none, some, List, ◌==◌, eqb,
  arith, if◌then◌else◌, String-cases, inl, inr,
}
use flowix.Common.Text.{contains}
use flowix.Upload.{Outcome, ok, fail, Reply, write_error, require_ownership}

-- `StaleUpload`
pub record StaleUpload : Type 0 where
  pub id : String
  pub owner_id : String

-- The fields that the client reads from a JSON body.
pub record Body : Type 0 where
  pub id : String
  pub owner_id : String
  pub stale : List StaleUpload

-- A response; a body that does not decode is `none`. The status is also there as it is printed.
pub record Response : Type 0 where
  pub status : ℕ
  pub shown : String
  pub body : Option Body

abbrev created_id : Option Body → Outcome String
created_id none = fail "decode"
created_id (some b) = if b.id == "" then fail "empty video id" else ok b.id

-- `CreateVideo`
unfoldable pub create_video : Outcome Response → Outcome String
create_video (fail e) = fail ("metadata create: " <> e)
create_video (ok r) =
    if not (eqb r.status 201) && not (eqb r.status 200)
    then fail ("metadata create status " <> r.shown)
    else created_id r.body

abbrev stale_data : Option Body → Outcome (List StaleUpload)
stale_data none = fail "decode"
stale_data (some b) = ok b.stale

-- `ListStaleUploaded`
unfoldable pub list_stale_uploaded : Outcome Response → Outcome (List StaleUpload)
list_stale_uploaded (fail e) = fail ("metadata stale uploads: " <> e)
list_stale_uploaded (ok r) =
    if not (eqb r.status 200)
    then fail ("metadata stale uploads status " <> r.shown)
    else stale_data r.body

-- `SetStatus`
unfoldable pub set_status : Outcome Response → Outcome (Unit {0})
set_status (fail e) = fail ("metadata set status: " <> e)
set_status (ok r) =
    if not (eqb r.status 200) then fail ("metadata set status " <> r.shown) else ok tt

abbrev owner_in : Option Body → Outcome String
owner_in none = fail "decode"
owner_in (some b) = ok b.owner_id

-- `GetVideoOwner`
unfoldable pub get_video_owner : Outcome Response → Outcome String
get_video_owner (fail e) = fail ("metadata owner: " <> e)
get_video_owner (ok r) =
    if not (eqb r.status 200) then fail ("metadata owner status " <> r.shown) else owner_in r.body

-- The metadata service names the user as the video's owner.
pub record Names (user : String) (o : Outcome Response) : Type 0 where
  pub response : Response
  pub arrived : o ≡ ok response
  pub success : response.status ≡ 200
  pub body : Body
  pub decoded : response.body ≡ some body
  pub owner : body.owner_id ≡ user

not_refused : (b : Bool) (x y : Reply) → (if b then some x else some y) ≡ none → ⊥
not_refused true x y h = ground arith
not_refused false x y h = ground arith

owner_named : (o : Outcome String) (user : String) → require_ownership o user ≡ none → o ≡ ok user
unfolding require_ownership
owner_named (fail e) user h = absurd (not_refused (contains e "404") _ _ h)
owner_named (ok owner) user h = elim (String-cases owner user) [
  | inl (p, q) ↦ ap ok p
  | inr (p, q) ↦ absurd (go (owner == user) q h)
]
  where
    go :
        (b : Bool) → b ≡ false → (if b then none else some (write_error 403 "forbidden")) ≡ none → ⊥
    go true e k = ground arith
    go false e k = ground arith

owner_in-Names :
    (r : Response) (b : Bool) (o : Option Body) (user : String)
    → eqb r.status 200 ≡ b
    → r.body ≡ o
    → (if not b then fail ("metadata owner status " <> r.shown) else owner_in o) ≡ ok user
    → Names user (ok r)
owner_in-Names r false o user e q h = absurd (ground arith)
owner_in-Names r true none user e q h = absurd (ground arith)
owner_in-Names r true (some body) user e q h = record {
  response = r;
  arrived = refl;
  success = ground arith;
  body = body;
  decoded = q;
  owner = ground arith;
}

owner_sound : (o : Outcome Response) (user : String) → get_video_owner o ≡ ok user → Names user o
unfolding get_video_owner
owner_sound (fail e) user h = absurd (ground arith)
owner_sound (ok r) user h = owner_in-Names r (eqb r.status 200) r.body user refl refl h

-- The check of the owner lets a request pass only when the metadata service answers 200 with a body
-- that names the user as the owner.
pub require_ownership-Names :
    (o : Outcome Response) (user : String)
    → require_ownership (get_video_owner o) user ≡ none
    → Names user o
require_ownership-Names o user h = owner_sound o user (owner_named (get_video_owner o) user h)
