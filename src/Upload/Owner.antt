-- ===== src/Upload/Owner.antt =====
-- Only the owner of a video reads and writes its upload.
use flowix.Common.{
  ◌≤◌, ◌≡◌, ◌≢◌, ◌⊎◌, inl, inr, refl, ap, String, Option, ◌==◌, arith, Bool-cases, String-cases,
}
use flowix.Common.Int.{ℤ}
use flowix.Common.Text.{contains}
use flowix.Http.{Request}
use flowix.Upload.{Outcome, ok, fail, Services, Env, Reply, require_ownership, guarded_by, guarded}
use flowix.Upload.Presign
use flowix.Upload.Presign.{completed_id}
use flowix.Upload.Multipart
use flowix.Upload.Resumable
use flowix.Upload.Resumable.{Body}

module _ {W : Type 0} (sv : Services W) where
  -- The request is answered by an error and nothing behind the handler has changed.
  abbrev pub IsRefused : W → Reply × W → Type 0
  IsRefused w p = (p.1 ≡ w) × (400 ≤ p.0.status)

  require_ownership-IsRefused :
      (o : Outcome String) (user : String) (w : W) (rest : Reply × W)
      → o ≢ ok user
      → IsRefused w (guarded_by (require_ownership o user) w rest)
  unfolding require_ownership
  require_ownership-IsRefused (fail e) user w rest n = elim (Bool-cases (contains e "404")) [
    | inl h ↦ rw h (refl, omega arith)
    | inr h ↦ rw h (refl, omega arith)
  ]
  require_ownership-IsRefused (ok owner) user w rest n = elim (String-cases owner user) [
    | inl (p, h) ↦ absurd (n (ap ok p))
    | inr (p, h) ↦ rw h (refl, omega arith)
  ]

  owner_cases :
      (o : Outcome String) (user : String) (w : W) (rest : Reply × W)
      → ((o ≡ ok user) × (guarded_by (require_ownership o user) w rest ≡ rest))
        ⊎ (400 ≤ (guarded_by (require_ownership o user) w rest).0.status)
  unfolding require_ownership
  owner_cases (fail e) user w rest =
      inr ((require_ownership-IsRefused (fail e) user w rest (λ k. ground arith)).1)
  owner_cases (ok owner) user w rest = elim (String-cases owner user) [
    | inl (p, h) ↦ rw h (inl (ap ok p, refl))
    | inr (p, h) ↦ rw h (inr (omega arith))
  ]

  -- The handler runs for the owner only, or its request is refused.
  pub guarded_cases :
      (id user : String) (w : W) (rest : Reply × W)
      → ((sv.get_video_owner id w ≡ ok user) × (guarded sv id user w rest ≡ rest))
        ⊎ (400 ≤ (guarded sv id user w rest).0.status)
  unfolding guarded
  guarded_cases id user w rest = elim (Bool-cases (id == "")) [
    | inl h ↦ rw h (inr (omega arith))
    | inr h ↦ rw h (owner_cases (sv.get_video_owner id w) user w rest)
  ]

  owner_verdict :
      (o : Outcome String) (user : String) (w : W) (rest : Reply × W)
      → (o ≡ ok user) ⊎ IsRefused w (guarded_by (require_ownership o user) w rest)
  owner_verdict (fail e) user w rest =
      inr (require_ownership-IsRefused (fail e) user w rest (λ k. ground arith))
  owner_verdict (ok owner) user w rest = elim (String-cases owner user) [
    | inl (p, h) ↦ inl (ap ok p)
    | inr (p, h) ↦
        inr (require_ownership-IsRefused (ok owner) user w rest (λ k. p (ground (arith, k))))
  ]

  -- The user is the owner, or the request is refused and nothing has changed.
  pub guarded_verdict :
      (id user : String) (w : W) (rest : Reply × W)
      → (sv.get_video_owner id w ≡ ok user) ⊎ IsRefused w (guarded sv id user w rest)
  unfolding guarded
  guarded_verdict id user w rest = elim (Bool-cases (id == "")) [
    | inl h ↦ inr (rw h (refl, omega arith))
    | inr h ↦ rw h (owner_verdict (sv.get_video_owner id w) user w rest)
  ]

  guarded_of_stranger :
      (id user : String) (w : W) (rest : Reply × W)
      → sv.get_video_owner id w ≢ ok user
      → IsRefused w (guarded sv id user w rest)
  unfolding guarded
  guarded_of_stranger id user w rest n = elim (Bool-cases (id == "")) [
    | inl h ↦ rw h (refl, omega arith)
    | inr h ↦ rw h (require_ownership-IsRefused (sv.get_video_owner id w) user w rest n)
  ]

  -- Whoever is not the video's owner, as the metadata service tells it, gets a status of 400 or
  -- more from each of the six handlers for that video, and the state behind the handlers stays as
  -- it was. This is also so where the metadata service gives an error.
  pub handlers_refuse_strangers :
      (env : Env) (body : Body) (completed : Option String) (number : Option ℤ) (r : Request)
      (w : W)
      → sv.get_video_owner (completed_id completed r) w ≢ ok r.user
      → sv.get_video_owner (r.param "id") w ≢ ok r.user
      → IsRefused w (Presign.complete sv completed r w)
        × (IsRefused w (Multipart.complete sv r w)
            × (IsRefused w (Multipart.list_uploaded sv r w)
                × (IsRefused w (Multipart.presign_part sv env number r w)
                    × (IsRefused w (Resumable.status sv r w)
                        × IsRefused w (Resumable.upload sv env body r w)))))
  unfolding Presign.complete Multipart.complete Multipart.list_uploaded Multipart.presign_part
      Resumable.status Resumable.upload
  handlers_refuse_strangers env body completed number r w n m = (
    guarded_of_stranger (completed_id completed r) r.user w _ n,
    (
      guarded_of_stranger (r.param "id") r.user w _ m,
      (
        guarded_of_stranger (r.param "id") r.user w _ m,
        (
          guarded_of_stranger (r.param "id") r.user w _ m,
          (
            guarded_of_stranger (r.param "id") r.user w _ m,
            guarded_of_stranger (r.param "id") r.user w _ m,
          ),
        ),
      ),
    ),
  )
