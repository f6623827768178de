-- ===== src/Upload/Server/Access.antt =====
-- Who can use and change an upload through the service.
use mathlib.Core.Path.{subst}
use flowix.Common.{ℕ, ◌<◌, ◌≡◌, ◌≢◌, ◌⊎◌, inl, inr, refl, String, Option, none, some, arith}
use flowix.Http.{Request, Headers, Step, reply, next}
use flowix.Auth.{auth_middleware, with_user}
use flowix.Auth.Token.{Jwt}
use flowix.Auth.Identity.{HasAccessToken, auth_middleware_sound}
use flowix.Upload.{Services, Env, Reply, ok}
use flowix.Upload.Presign
use flowix.Upload.Presign.{completed_id}
use flowix.Upload.Multipart
use flowix.Upload.Resumable
use flowix.Upload.Owner.{IsRefused, guarded_verdict}
use flowix.Upload.Server.{
  Operation, upload, presign, complete, offset, append, begin, parts, presign_part, assemble, Route,
  Bodies, Answer, refused, replied, replying, handle, handle_next, serve,
}

-- The video that an operation is for; three operations begin a new one.
abbrev pub video_of : Operation → Bodies → Request → Option String
video_of upload b r = none
video_of presign b r = none
video_of begin b r = none
video_of complete b r = some (completed_id b.completed r)
video_of _ b r = some (r.param "id")

-- The metadata service names the user as the owner of the video, if there is one.
abbrev pub IsOwnerOf : {W : Type 0} → Services W → W → String → Option String → Type 0
IsOwnerOf sv w user none = Unit
IsOwnerOf sv w user (some id) = sv.get_video_owner id w ≡ ok user

-- The answer is no error.
abbrev pub Succeeds : Answer → Type 0
Succeeds (refused code) = ⊥
Succeeds (replied r) = r.status < 400

-- The request succeeded, or it changed something.
abbrev pub HasEffect : {W : Type 0} → W → Answer × W → Type 0
HasEffect w p = Succeeds p.0 ⊎ (p.1 ≢ w)

no_effect :
    {W : Type 0} (sv : Services W) (w : W) (p : Reply × W)
    → IsRefused sv w p
    → HasEffect w (replying p)
    → ⊥
no_effect sv w (r, v) (same, error) (inl good) = absurd (omega (arith, error, good))
no_effect sv w (r, v) (same, error) (inr changed) = changed same

module _ {W : Type 0} (sv : Services W) (env : Env) (b : Bodies) (r : Request) (w : W) where
  owner_of_verdict :
      (id : String) (p : Reply × W)
      → (sv.get_video_owner id w ≡ ok r.user) ⊎ IsRefused sv w p
      → HasEffect w (replying p)
      → sv.get_video_owner id w ≡ ok r.user
  owner_of_verdict id p (inl mine) e = mine
  owner_of_verdict id p (inr error) e = absurd (no_effect sv w p error e)

  handle-IsOwnerOf :
      (o : Operation) → HasEffect w (handle sv env o b r w) → IsOwnerOf sv w r.user (video_of o b r)
  unfolding handle Presign.complete Resumable.status Resumable.upload Multipart.list_uploaded
      Multipart.presign_part Multipart.complete
  handle-IsOwnerOf upload e = tt
  handle-IsOwnerOf presign e = tt
  handle-IsOwnerOf begin e = tt
  handle-IsOwnerOf complete e =
      owner_of_verdict _ (Presign.complete sv b.completed r w)
        (guarded_verdict sv (completed_id b.completed r) r.user w _) e
  handle-IsOwnerOf offset e =
      owner_of_verdict _ (Resumable.status sv r w) (guarded_verdict sv (r.param "id") r.user w _) e
  handle-IsOwnerOf append e =
      owner_of_verdict _ (Resumable.upload sv env b.content r w)
        (guarded_verdict sv (r.param "id") r.user w _) e
  handle-IsOwnerOf parts e =
      owner_of_verdict _ (Multipart.list_uploaded sv r w)
        (guarded_verdict sv (r.param "id") r.user w _) e
  handle-IsOwnerOf presign_part e =
      owner_of_verdict _ (Multipart.presign_part sv env b.part_number r w)
        (guarded_verdict sv (r.param "id") r.user w _) e
  handle-IsOwnerOf assemble e =
      owner_of_verdict _ (Multipart.complete sv r w) (guarded_verdict sv (r.param "id") r.user w _)
        e

video_of-with_user :
    (o : Operation) (b : Bodies) (sub : String) (r : Request)
    → video_of o b (with_user sub r) ≡ video_of o b r
unfolding completed_id
video_of-with_user upload b sub r = refl
video_of-with_user presign b sub r = refl
video_of-with_user begin b sub r = refl
video_of-with_user complete b sub r = refl
video_of-with_user offset b sub r = refl
video_of-with_user append b sub r = refl
video_of-with_user parts b sub r = refl
video_of-with_user presign_part b sub r = refl
video_of-with_user assemble b sub r = refl

module _ {W : Type 0} (sv : Services W) (env : Env) (jwt : Jwt) (now : ℕ) (secret : String)
    (rt : Route) (b : Bodies) (h : Headers) (r : Request) (w : W) where
  -- The request has an access token, and its subject is the owner of the video that it is for.
  abbrev pub IsPermitted : Type 0
  IsPermitted =
      (sub : String) × HasAccessToken jwt now secret r sub
      × IsOwnerOf sv w sub (video_of rt.operation b r)

  step-IsPermitted :
      (p : Step)
      → auth_middleware jwt now secret h r ≡ p
      → HasEffect w (handle_next sv env rt.operation b p w)
      → IsPermitted
  unfolding handle_next
  step-IsPermitted (reply code v body) q (inl good) = absurd good
  step-IsPermitted (reply code v body) q (inr changed) = absurd (changed refl)
  step-IsPermitted (next v s) q e =
      let (sub, token, same) = auth_middleware_sound jwt now secret h v r s q in
      (
        sub,
        token,
        subst (IsOwnerOf sv w sub) (video_of-with_user rt.operation b sub r) (
            handle-IsOwnerOf sv env b (with_user sub r) w rt.operation
              (subst (λ x. HasEffect w (handle sv env rt.operation b x w)) same e)),
      )

  -- A request on a route of the upload service that is answered without an error, or that changes
  -- anything behind the service, has an access token, and for a video that there is already the
  -- metadata service names the token's subject as its owner.
  pub serve-IsPermitted : HasEffect w (serve sv env jwt now secret rt b h r w) → IsPermitted
  unfolding serve
  serve-IsPermitted e = step-IsPermitted (auth_middleware jwt now secret h r) refl e
