-- ===== src/Upload/Reconciler.antt =====
-- services/upload/internal/reconciler/reconciler.go: one pass over the videos that are stuck in the
-- status "uploaded". Errors are only logged there.
use flowix.Common.{
  ◌⊎◌, ℕ, ◌<◌, ◌≡◌, inl, inr, refl, sym, ap, ◌∙◌, String, Bool, true, false, List, [], ◌∷◌, All,
  ltb, arith, if◌then◌else◌, Bool-cases,
}
use flowix.Common.Int.{ℤ, pos, negsuc}
use flowix.Upload.{Outcome, ok, fail, VideoUploadedEvent, raw_key}
use flowix.Upload.Client.{StaleUpload}

-- The reconciler's interfaces `Metadata`, `Storage` and `Publisher`, over the state behind them.
pub record Backend (W : Type 0) : Type 0 where
  pub list_stale_uploaded : ℕ → ℕ → W → Outcome (List StaleUpload)
  pub set_status : String → String → W → Outcome (Unit {0}) × W
  pub stat_object_size : String → W → Outcome ℕ
  pub find_upload_id : String → W → Outcome String
  pub abort_multipart_upload : String → String → W → Outcome (Unit {0}) × W
  pub publish : VideoUploadedEvent → W → Outcome (Unit {0}) × W

-- `New`: the limit on a pass.
unfoldable pub limit_or_default : ℤ → ℕ
limit_or_default (negsuc n) = 100
limit_or_default (pos n) = if ltb 0 n then n else 100

abbrev has_object : Outcome ℕ → Bool
has_object (fail e) = false
has_object (ok size) = ltb 0 size

abbrev drop_session : {W : Type 0} → Backend W → String → Outcome String → W → W
drop_session b key (fail e) w = w
drop_session b key (ok id) w = (b.abort_multipart_upload key id w).1

-- `handle`
unfoldable pub handle : {W : Type 0} → Backend W → StaleUpload → W → W
handle b v w =
    let key = raw_key v.id in
    if has_object (b.stat_object_size key w)
    then (b.publish (record { video_id = v.id; s3_key = key; owner_id = v.owner_id }) w).1
    else (b.set_status v.id "failed" (drop_session b key (b.find_upload_id key w) w)).1

abbrev handle_all : {W : Type 0} → Backend W → List StaleUpload → W → W
unfolding handle
handle_all b [] w = w
handle_all b (v ∷ vs) w = handle_all b vs (handle b v w)

abbrev handle_listed : {W : Type 0} → Backend W → Outcome (List StaleUpload) → W → W
unfolding handle_all
handle_listed b (fail e) w = w
handle_listed b (ok vs) w = handle_all b vs w

-- `reconcile`, for the age and the limit.
unfoldable pub reconcile : {W : Type 0} → Backend W → ℕ → ℕ → W → W
unfolding handle_listed
reconcile b ttl limit w = handle_listed b (b.list_stale_uploaded ttl limit w) w

-- What the pass relies on: `status_of` and `size_of` look at the state; publishing and ending a
-- session leave both alone, and a change of a status leaves the objects alone, and the statuses of
-- the ids that are apart from the one that is sent.
pub record IsLawful {W : Type 0} (b : Backend W) (status_of : String → W → String)
    (Apart : String → String → Type 0) : Type 0 where
  pub publish-status :
      (e : VideoUploadedEvent) (id : String) (w : W)
      → status_of id (b.publish e w).1 ≡ status_of id w
  pub publish-size :
      (e : VideoUploadedEvent) (key : String) (w : W)
      → b.stat_object_size key (b.publish e w).1 ≡ b.stat_object_size key w
  pub abort-status :
      (key u id : String) (w : W)
      → status_of id (b.abort_multipart_upload key u w).1 ≡ status_of id w
  pub abort-size :
      (key u k : String) (w : W)
      → b.stat_object_size k (b.abort_multipart_upload key u w).1 ≡ b.stat_object_size k w
  pub set_status-size :
      (id s k : String) (w : W)
      → b.stat_object_size k (b.set_status id s w).1 ≡ b.stat_object_size k w
  pub set_status-other :
      (id s other : String) (w : W)
      → Apart other id
      → status_of other (b.set_status id s w).1 ≡ status_of other w

module _ {W : Type 0} (b : Backend W) (status_of : String → W → String)
    (Apart : String → String → Type 0) (law : IsLawful b status_of Apart) where
  drop_session-status :
      (key id : String) (o : Outcome String) (w : W)
      → status_of id (drop_session b key o w) ≡ status_of id w
  drop_session-status key id (fail e) w = refl
  drop_session-status key id (ok u) w = law.abort-status key u id w

  drop_session-size :
      (key k : String) (o : Outcome String) (w : W)
      → b.stat_object_size k (drop_session b key o w) ≡ b.stat_object_size k w
  drop_session-size key k (fail e) w = refl
  drop_session-size key k (ok u) w = law.abort-size key u k w

  handle-size :
      (v : StaleUpload) (k : String) (w : W)
      → b.stat_object_size k (handle b v w) ≡ b.stat_object_size k w
  unfolding handle
  handle-size v k w = elim (Bool-cases (has_object (b.stat_object_size (raw_key v.id) w))) [
    | inl e ↦ rw e (law.publish-size _ k w)
    | inr e ↦ rw e (law.set_status-size v.id "failed" k _ ∙ drop_session-size (raw_key v.id) k _ w)
  ]

  handle-status :
      (v : StaleUpload) (id : String) (n : ℕ) (w : W)
      → b.stat_object_size (raw_key id) w ≡ ok n
      → 0 < n
      → (id ≡ v.id) ⊎ Apart id v.id
      → status_of id (handle b v w) ≡ status_of id w
  unfolding handle
  handle-status v id n w e h c = elim c [
    | inl p ↦
        let present : has_object (b.stat_object_size (raw_key v.id) w) ≡ true =
          rw (sym (ap (λ i. b.stat_object_size (raw_key i) w) p), e) (ground arith) in
        rw present (law.publish-status _ id w)
    | inr p ↦ elim (Bool-cases (has_object (b.stat_object_size (raw_key v.id) w))) [
      | inl f ↦ rw f (law.publish-status _ id w)
      | inr f ↦
          rw f
            (law.set_status-other v.id "failed" id _ p ∙ drop_session-status (raw_key v.id) id _ w)
    ]
  ]

  handle_all-status :
      (vs : List StaleUpload) (id : String) (n : ℕ) (w : W)
      → b.stat_object_size (raw_key id) w ≡ ok n
      → 0 < n
      → All (λ (v : StaleUpload). (id ≡ v.id) ⊎ Apart id v.id) vs
      → status_of id (handle_all b vs w) ≡ status_of id w
  unfolding handle_all
  handle_all-status [] id n w e h c = refl
  handle_all-status (v ∷ vs) id n w e h (c, cs) =
      handle_all-status vs id n (handle b v w) (handle-size v (raw_key id) w ∙ e) h cs
      ∙ handle-status v id n w e h c

  handle_listed-status :
      (o : Outcome (List StaleUpload)) (id : String) (n : ℕ) (w : W)
      → b.stat_object_size (raw_key id) w ≡ ok n
      → 0 < n
      → ((vs : List StaleUpload)
          → o ≡ ok vs
          → All (λ (v : StaleUpload). (id ≡ v.id) ⊎ Apart id v.id) vs)
      → status_of id (handle_listed b o w) ≡ status_of id w
  unfolding handle_listed
  handle_listed-status (fail x) id n w e h c = refl
  handle_listed-status (ok vs) id n w e h c = handle_all-status vs id n w e h (c vs refl)

  -- A pass does not touch the status of a video whose object is in the store and not empty, if every
  -- other id of the list is apart from its id. The condition: publishing, ending a session and
  -- setting a status leave the objects and the statuses of other videos alone, as IsLawful says.
  pub reconcile-status :
      (ttl limit : ℕ) (id : String) (n : ℕ) (w : W)
      → b.stat_object_size (raw_key id) w ≡ ok n
      → 0 < n
      → ((vs : List StaleUpload)
          → b.list_stale_uploaded ttl limit w ≡ ok vs
          → All (λ (v : StaleUpload). (id ≡ v.id) ⊎ Apart id v.id) vs)
      → status_of id (reconcile b ttl limit w) ≡ status_of id w
  unfolding reconcile
  reconcile-status ttl limit id n w e h c =
      handle_listed-status (b.list_stale_uploaded ttl limit w) id n w e h c

  handle-other :
      (v : StaleUpload) (id : String) (w : W)
      → Apart id v.id
      → status_of id (handle b v w) ≡ status_of id w
  unfolding handle
  handle-other v id w n = elim (Bool-cases (has_object (b.stat_object_size (raw_key v.id) w))) [
    | inl e ↦ rw e (law.publish-status _ id w)
    | inr e ↦
        rw e (law.set_status-other v.id "failed" id _ n ∙ drop_session-status (raw_key v.id) id _ w)
  ]

  handle_all-other :
      (vs : List StaleUpload) (id : String) (w : W)
      → All (λ (v : StaleUpload). Apart id v.id) vs
      → status_of id (handle_all b vs w) ≡ status_of id w
  unfolding handle_all
  handle_all-other [] id w h = refl
  handle_all-other (v ∷ vs) id w (h, hs) =
      handle_all-other vs id (handle b v w) hs ∙ handle-other v id w h

  -- A pass does not touch the status of a video that is not listed.
  pub reconcile-unlisted :
      (ttl limit : ℕ) (id : String) (w : W)
      → ((vs : List StaleUpload)
          → b.list_stale_uploaded ttl limit w ≡ ok vs
          → All (λ (v : StaleUpload). Apart id v.id) vs)
      → status_of id (reconcile b ttl limit w) ≡ status_of id w
  unfolding reconcile handle_listed
  reconcile-unlisted ttl limit id w h = go (b.list_stale_uploaded ttl limit w) h
    where
      go :
          (o : Outcome (List StaleUpload))
          → ((vs : List StaleUpload) → o ≡ ok vs → All (λ (v : StaleUpload). Apart id v.id) vs)
          → status_of id (handle_listed b o w) ≡ status_of id w
      go (fail e) k = refl
      go (ok vs) k = handle_all-other vs id w (k vs refl)
