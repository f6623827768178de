-- ===== src/Upload/Announced.antt =====
-- What it takes to announce an upload: the `Complete` of
-- services/upload/internal/handler/presign.go.
use flowix.Common.{
  ◌≡◌, ◌≢◌, ◌↔◌, ◌⊎◌, inl, inr, refl, sym, ap, ◌∙◌, String, ◌<>◌, Bool, true, false, ◌&&◌, not,
  Option, none, some, ◌==◌, eq_iff, eqb, eq_refl, arith, if◌then◌else◌, Bool-cases,
}
use flowix.Common.Text.{has_prefix, contains}
use flowix.Http.{Request}
use flowix.Upload.{
  Outcome, ok, fail, ObjectInfo, VideoUploadedEvent, Services, Reply, write_error, raw_key,
  require_ownership, guarded_by, guarded, published, accept_object, announce,
}
use flowix.Upload.Presign
use flowix.Upload.Presign.{completed_id}

module _ {W : Type 0} (sv : Services W) where
  abbrev pub event_of : String → String → VideoUploadedEvent
  event_of id user = record { video_id = id; s3_key = raw_key id; owner_id = user }

  -- The uploaded object is one that `Complete` takes, and the queue takes its event.
  pub record IsAnnounced (id user : String) (w : W) : Type 0 where
    pub info : ObjectInfo
    pub stat : sv.stat_object_info (raw_key id) w ≡ ok info
    pub nonempty : info.size ≢ 0
    pub video : (info.content_type ≡ "") ⊎ (has_prefix info.content_type "video/" ≡ true)
    pub queued : (sv.publish (event_of id user) w).0 ≡ ok tt

  published-state : (id : String) (p : Outcome (Unit {0}) × W) → (published id p).1 ≡ p.1
  published-state id (fail e, w) = refl
  published-state id (ok x, w) = refl

  published_iff :
      (id user : String) (p : Outcome (Unit {0}) × W)
      → ((published id p).0.status ≡ 200) ↔ (p.0 ≡ ok tt)
  published_iff id user (fail e, w) = (λ h. absurd (ground arith), λ h. absurd (ground arith))
  published_iff id user (ok tt, w) = (λ h. refl, λ h. refl)

  both_passed :
      (a b : Bool) (x y z : Reply × W)
      → x.0.status ≢ 200
      → y.0.status ≢ 200
      → (if a then x else if b then y else z).0.status ≡ 200
      → (a ≡ false) × ((b ≡ false) × ((if a then x else if b then y else z) ≡ z))
  both_passed true b x y z n m h = absurd (n h)
  both_passed false true x y z n m h = absurd (m h)
  both_passed false false x y z n m h = (refl, (refl, refl))

  video_type :
      (t : String)
      → (not (t == "") && not (has_prefix t "video/")) ≡ false
      → (t ≡ "") ⊎ (has_prefix t "video/" ≡ true)
  video_type t h = elim (Bool-cases (has_prefix t "video/")) [
    | inl e ↦ inr e
    | inr e ↦ inl (ground (arith, eq_iff t ""))
  ]

  announce_sound :
      (missing : String → Reply) (id user : String) (w : W) (o : Outcome ObjectInfo)
      → sv.stat_object_info (raw_key id) w ≡ o
      → ((e : String) → (missing e).status ≢ 200)
      → (accept_object sv missing id user o w).0.status ≡ 200
      → IsAnnounced id user w
        × ((accept_object sv missing id user o w).1 ≡ (sv.publish (event_of id user) w).1)
  announce_sound missing id user w (fail e) q m h = absurd (m e h)
  announce_sound missing id user w (ok info) q m h =
      let (a, (b, c)) =
        both_passed (eqb info.size 0)
          (not (info.content_type == "") && not (has_prefix info.content_type "video/"))
          (write_error 400 "empty object", w)
          (write_error 400 ("unexpected content type: " <> info.content_type), w)
          (published id (sv.publish (event_of id user) w)) (λ e. ground arith) (λ e. ground arith)
          h in
      (
        record {
          info = info;
          stat = q;
          nonempty = ground arith;
          video = video_type info.content_type b;
          queued =
              (published_iff id user (sv.publish (event_of id user) w)).0
                (ap (λ (p : Reply × W). p.0.status) (sym c) ∙ h);
        },
        ap (λ (p : Reply × W). p.1) c ∙ published-state id (sv.publish (event_of id user) w),
      )

  announce_complete :
      (missing : String) (id user : String) (w : W)
      → IsAnnounced id user w
      → (announce sv missing id user w).0.status ≡ 200
  unfolding announce
  announce_complete missing id user w h =
      let size : eqb h.info.size 0 ≡ false = ground (arith, h.nonempty) in
      let type : (not (h.info.content_type == "") && not (has_prefix h.info.content_type "video/"))
          ≡ false =
        ground (arith, h.video, eq_iff h.info.content_type "") in
      rw (h.stat, size, type) ((published_iff id user (sv.publish (event_of id user) w)).1 h.queued)

  passed :
      (b : Bool) (x y : Reply × W)
      → x.0.status ≢ 200
      → (if b then x else y).0.status ≡ 200
      → (b ≡ false) × ((if b then x else y) ≡ y)
  passed true x y n h = absurd (n h)
  passed false x y n h = (refl, refl)

  metadata_fails :
      (b : Bool) (w : W) (rest : Reply × W)
      → (guarded_by
          (if b
            then some (write_error 404 "video not found")
            else some (write_error 502 "metadata unavailable"))
          w
          rest).0.status
        ≢ 200
  metadata_fails true w rest h = ground arith
  metadata_fails false w rest h = ground arith

  is_owner :
      (b : Bool) (w : W) (rest : Reply × W)
      → (guarded_by (if b then none else some (write_error 403 "forbidden")) w rest).0.status ≡ 200
      → (b ≡ true)
        × (guarded_by (if b then none else some (write_error 403 "forbidden")) w rest ≡ rest)
  is_owner true w rest h = (refl, refl)
  is_owner false w rest h = absurd (ground arith)

  guarded_by_sound :
      (o : Outcome String) (user : String) (w : W) (rest : Reply × W)
      → (guarded_by (require_ownership o user) w rest).0.status ≡ 200
      → (o ≡ ok user) × (guarded_by (require_ownership o user) w rest ≡ rest)
  unfolding require_ownership
  guarded_by_sound (fail e) user w rest h = absurd (metadata_fails (contains e "404") w rest h)
  guarded_by_sound (ok owner) user w rest h =
      let (e, q) = is_owner (owner == user) w rest h in (ap ok ((eq_iff owner user).0 e), q)

  guarded_sound :
      (id user : String) (w : W) (rest : Reply × W)
      → (guarded sv id user w rest).0.status ≡ 200
      → (id ≢ "") × ((sv.get_video_owner id w ≡ ok user) × (guarded sv id user w rest ≡ rest))
  unfolding guarded
  guarded_sound id user w rest h =
      let (e, q) = passed (id == "") _ _ (λ k. ground arith) h in
      let (o, p) =
        guarded_by_sound (sv.get_video_owner id w) user w rest
          (ap (λ (p : Reply × W). p.0.status) (sym q) ∙ h) in
      (λ k. ground (arith, eq_iff id ""), (o, q ∙ p))

  guarded_of_owner :
      (id user : String) (w : W) (rest : Reply × W)
      → id ≢ ""
      → sv.get_video_owner id w ≡ ok user
      → guarded sv id user w rest ≡ rest
  unfolding guarded require_ownership
  guarded_of_owner id user w rest n h =
      let e : (id == "") ≡ false = ground (arith, eq_iff id "") in rw (e, h, eq_refl user) refl

  -- A `Complete` that answers 200 was asked by the owner, for an object that passes the checks, and
  -- the state it leaves is that of publishing this one video's event in the owner's name.
  pub complete_sound :
      (body : Option String) (r : Request) (w : W)
      → (Presign.complete sv body r w).0.status ≡ 200
      → (completed_id body r ≢ "")
        × ((sv.get_video_owner (completed_id body r) w ≡ ok r.user)
            × (IsAnnounced (completed_id body r) r.user w
                × ((Presign.complete sv body r w).1
                    ≡ (sv.publish (event_of (completed_id body r) r.user) w).1)))
  unfolding Presign.complete announce
  complete_sound body r w h =
      let id = completed_id body r in
      let (n, (o, q)) = guarded_sound id r.user w _ h in
      let (a, s) =
        announce_sound (λ _. write_error 404 "object not found, upload via presigned URL first") id
          r.user w (sv.stat_object_info (raw_key id) w) refl (λ e k. ground arith)
          (ap (λ (p : Reply × W). p.0.status) (sym q) ∙ h) in
      (n, (o, (a, ap (λ (p : Reply × W). p.1) q ∙ s)))

  -- `Complete` of an upload by a signed PUT answers 200 exactly when the id is there, the user is
  -- the video's owner, the object is in the store, is not empty and has a video type or none, and
  -- the queue takes the event.
  pub complete_iff :
      (body : Option String) (r : Request) (w : W)
      → ((Presign.complete sv body r w).0.status ≡ 200) ↔ (
          (completed_id body r ≢ "")
          × ((sv.get_video_owner (completed_id body r) w ≡ ok r.user)
              × IsAnnounced (completed_id body r) r.user w))
  unfolding Presign.complete
  complete_iff body r w =
      let id = completed_id body r in
      (
        λ h. let (n, (o, (a, s))) = complete_sound body r w h in (n, (o, a)),
        λ (n, (o, a)).
            ap (λ (p : Reply × W). p.0.status) (guarded_of_owner id r.user w _ n o)
            ∙ announce_complete "object not found, upload via presigned URL first" id r.user w a,
      )
