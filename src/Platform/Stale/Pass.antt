-- ===== src/Platform/Stale/Pass.antt =====
-- Which statuses a pass of the reconciler leaves alone.
use mathlib.Core.Option
use flowix.Common.{
  ◌∷◌, ℕ, ◌+◌, ◌≤◌, ◌*◌, ◌%◌, leb, true, ◌<◌, ◌≡◌, ◌≢◌, ◌⊎◌, inl, inr, refl, sym, ap, ◌∙◌, String,
  false, Option, none, some, List, [], ◌==◌, eq_iff, arith, All, if◌then◌else◌, String-cases,
  select, Bool-cases,
}
use flowix.Common.Int.{pos, max_int64}
use flowix.Common.Strconv.{atoi}
use flowix.Http.{Request, Headers, Step, next, no_headers, header, http_error}
use flowix.Auth.{internal_auth}
use flowix.Metadata.Model.{Rendition}
use flowix.Metadata.Database.{VideoRow, Database, Faults, row_of}
use flowix.Metadata.Database.Rows.{row_of-id, row_of-update_where}
use flowix.Metadata.Database.Invariant.{IsValid}
use flowix.Metadata.Repository
use flowix.Metadata.Repository.{whole_seconds, Result, is_stale, older_first, set_status}
use flowix.Metadata.Repository.Redelivery.{update_status_outcome}
use flowix.Metadata.Handler
use flowix.Metadata.Handler.{seconds, Reply, stale_reply, positive_upto}
use flowix.Metadata.Handler.Delete
use flowix.Metadata.Handler.Delete.{is_status, status_reply}
use flowix.Metadata.Server.{Setup, handle, handle_next, list_stale}
use flowix.Upload.{ok, VideoUploadedEvent, raw_key}
use flowix.Upload.Client
use flowix.Upload.Client.{StaleUpload}
use flowix.Upload.Reconciler.{IsLawful, reconcile, reconcile-status, reconcile-unlisted}
use flowix.Platform.{no_bodies}
use flowix.Platform.Ownership.{answered}
use flowix.Platform.Stale.Listed.{answer-All, All-select, stale-apart}
use flowix.Platform.Stale.{
  Objects, stale_request, status_request, stale_answer, status_answer, tables_backend, status_in,
}

internal_auth_cases :
    (secret : String) (w : Headers) (r : Request)
    → (internal_auth secret w r ≡ next w r)
      ⊎ (internal_auth secret w r ≡ http_error w "{\"error\":\"unauthorized internal\"}" 401)
unfolding internal_auth
internal_auth_cases secret w r = elim (Bool-cases (secret == "")) [
  | inl e ↦ rw e (inl refl)
  | inr e ↦ rw e (elim (Bool-cases (header r "X-Internal-Token" == secret)) [
    | inl t ↦ rw t (inl refl)
    | inr t ↦ rw t (inr refl)
  ])
]

module _ (f : Faults) (id status : String) (rns : List Rendition) (db : Database) (other : String)
    (n : other ≢ id) where
  update_status-other :
      row_of other (Repository.update_status f id status rns db).1.videos ≡ row_of other db.videos
  update_status-other = elim (update_status_outcome f id status rns db) [
    | inl same ↦ rw same refl
    | inr (changed, timely) ↦ rw changed (
        row_of-update_where (λ (r : VideoRow). r.id == id)
          (λ (r : VideoRow). record r { status = status; updated_at = db.now }) (λ r. refl) other
          db.videos
        ∙ go (row_of other db.videos) refl)
  ]
    where
      go :
          (o : Option VideoRow)
          → row_of other db.videos ≡ o
          → Option.map
              (λ (r : VideoRow).
                if r.id == id then record r { status = status; updated_at = db.now } else r)
              o
            ≡ o
      go none q = refl
      go (some r) q =
          let apart : (r.id == id) ≡ false =
            ground (arith, n, row_of-id other db.videos q, eq_iff r.id id) in
          rw apart refl

  reply-other :
      (g : Faults) (p : Result (Unit {0}) × Database)
      → row_of other p.1.videos ≡ row_of other db.videos
      → row_of other
          (status_reply g id
            (record {
              status = status;
              renditions = [];
              thumbnail_s3_key = none;
              thumbnail_url = none;
            })
            p).1.videos
        ≡ row_of other db.videos
  reply-other g (Repository.err e, d) h = h
  reply-other g (Repository.ok u, d) h = h

module _ (st : Setup) (token : String) (shown : ℕ → String) where
  status_answer-other :
      (id s other : String) (db : Database)
      → other ≢ st.uuid id
      → row_of other (status_answer st token shown id s db).1.videos ≡ row_of other db.videos
  unfolding status_answer handle_next handle http_error Delete.update_status
  status_answer-other id s other db n =
      elim (internal_auth_cases st.internal_token no_headers (status_request token id)) [
        | inr e ↦ rw e refl
        | inl e ↦ rw e (elim (Bool-cases (is_status s)) [
          | inr t ↦ rw t refl
          | inl t ↦ rw t (
              reply-other st.faults (st.uuid id) s [] db other n st.more_faults
                (Repository.update_status st.faults (st.uuid id) s [] db)
                (update_status-other st.faults (st.uuid id) s [] db other n))
        ])
      ]

  -- The store and the queue leave the tables alone, and what they promise of the objects is enough.
  pub tables_backend-IsLawful :
      {R : Type 0} (o : Objects R)
      → ((e : VideoUploadedEvent) (k : String) (x : R)
          → o.stat_object_size k (o.publish e x).1 ≡ o.stat_object_size k x)
      → ((key u k : String) (x : R)
          → o.stat_object_size k (o.abort_multipart_upload key u x).1 ≡ o.stat_object_size k x)
      → IsLawful
          (tables_backend st token shown o)
          (status_in {R = R})
          (λ other id. other ≢ st.uuid id)
  unfolding tables_backend
  tables_backend-IsLawful {R} o published aborted = record {
    publish-status = λ e id w. refl;
    publish-size = λ e k w. published e k w.1;
    abort-status = λ key u id w. refl;
    abort-size = λ key u k w. aborted key u k w.1;
    set_status-size = λ id s k w. refl;
    set_status-other = λ id s other w n.
        ap (λ (x : Option VideoRow). elim x as (λ _. String) [ none ↦ "" | some r ↦ r.status ])
          (status_answer-other id s other w.0 n);
  }

-- A number of seconds that is a `time.Duration` comes back as it was.
whole_seconds-seconds : (n : ℕ) → n ≤ 9223372036 → whole_seconds (seconds n) ≡ pos n
unfolding whole_seconds seconds
whole_seconds-seconds n h =
    let e : n * 1000000000 % 18446744073709551616 ≡ n * 1000000000 = omega arith in
    let fits : leb (n * 1000000000) max_int64 ≡ true = ground arith in
    rw (e, fits) (ap pos (omega arith))

-- What the condition on a row's age and status says.
spared :
    (now ttl : ℕ) (r : VideoRow)
    → (r.status ≢ "uploaded") ⊎ (now ≤ r.created_at + ttl)
    → is_stale now (pos ttl) r ≡ false
spared now ttl r (inl n) = ground (arith, n, eq_iff r.status "uploaded")
spared now ttl r (inr h) = ground (arith, h)

list-All :
    (P : String → Type 0) (st : Setup) (token : String) (shown : ℕ → String) (ttl limit : ℕ)
    (db : Database) (vs : List StaleUpload)
    → atoi (shown ttl) ≡ some (pos ttl)
    → 0 < ttl
    → ttl ≤ 9223372036
    → All (λ (x : VideoRow). P x.id) (select (is_stale db.now (pos ttl)) db.videos)
    → Client.list_stale_uploaded (ok (answered (stale_answer st token shown ttl limit db))) ≡ ok vs
    → All (λ (u : StaleUpload). P u.id) vs
unfolding stale_answer handle_next handle http_error Handler.list_stale Client.list_stale_uploaded
list-All P st token shown ttl limit db vs printed p small k h =
    let request = stale_request shown token ttl limit in
    let answer = λ (q : Step).
      Client.list_stale_uploaded (ok (answered (handle_next st list_stale no_bodies q db).0)) in
    let given : positive_upto none 3600 (atoi (shown ttl)) ≡ ttl = rw printed (ground (arith, p)) in
    let same = whole_seconds-seconds ttl small in
    elim (internal_auth_cases st.internal_token no_headers request) [
      | inr e ↦ absurd (ground (arith, ap answer (sym e) ∙ h))
      | inl e ↦
          answer-All P st.faults db (seconds ttl) _ vs (rw same k)
            (rw given at (ap answer (sym e) ∙ h))
    ]

module _ (uuid : String → String) (id : String) where
  -- The id is none that Postgres reads from one of the texts.
  apart_of_printed :
      (rows : List VideoRow)
      → All (λ (x : VideoRow). uuid x.id ≡ x.id) rows
      → All (λ (x : VideoRow). id ≢ x.id) rows
      → All (λ (x : VideoRow). id ≢ uuid x.id) rows
  apart_of_printed [] c h = tt
  apart_of_printed (x ∷ rows) (c, cs) (h, hs) = (λ e. h (e ∙ c), apart_of_printed rows cs hs)

  same_or_apart :
      (rows : List VideoRow)
      → All (λ (x : VideoRow). uuid x.id ≡ x.id) rows
      → All (λ (x : VideoRow). (id ≡ x.id) ⊎ (id ≢ uuid x.id)) rows
  same_or_apart [] c = tt
  same_or_apart (x ∷ rows) (c, cs) = elim (String-cases id x.id) [
    | inl (p, q) ↦ (inl p, same_or_apart rows cs)
    | inr (p, q) ↦ (inr (λ e. p (e ∙ c)), same_or_apart rows cs)
  ]

-- A pass of the reconciler over the metadata service's tables leaves the status of a video as it was
-- if the video is not in status "uploaded", or is not older than the given time, or the store
-- answers that its object has a size above 0. Of a video in none of these cases nothing is said: one
-- whose size the store cannot tell is among them. The conditions: the tables meet their constraints,
-- publishing an event and ending a session leave the objects as they are, and the time, in seconds,
-- is not 0, is a `time.Duration`, and is read back as it was printed; and that Postgres reads the
-- ids that it prints as they are.
pub pass-Spares :
    {R : Type 0} (o : Objects R) (st : Setup) (token : String) (shown : ℕ → String) (ttl limit : ℕ)
    (id : String) (db : Database) (x : R)
    → IsValid db
    → All (λ (v : VideoRow). st.uuid v.id ≡ v.id) db.videos
    → ((e : VideoUploadedEvent) (k : String) (y : R)
        → o.stat_object_size k (o.publish e y).1 ≡ o.stat_object_size k y)
    → ((key u k : String) (y : R)
        → o.stat_object_size k (o.abort_multipart_upload key u y).1 ≡ o.stat_object_size k y)
    → atoi (shown ttl) ≡ some (pos ttl)
    → 0 < ttl
    → ttl ≤ 9223372036
    → ((r : VideoRow)
        → row_of id db.videos ≡ some r
        → (r.status ≢ "uploaded") ⊎ (db.now ≤ r.created_at + ttl))
      ⊎ ((n : ℕ) × (o.stat_object_size (raw_key id) x ≡ ok n) × (0 < n))
    → status_in id (reconcile (tables_backend st token shown o) ttl limit (db, x))
      ≡ status_in id (db, x)
unfolding tables_backend
pass-Spares o st token shown ttl limit id db x v ids_printed published aborted printed p small
      kept =
    let stale = is_stale db.now (pos ttl) in
    let law = tables_backend-IsLawful st token shown o published aborted in
    let texts = All-select stale (λ (r : VideoRow). st.uuid r.id ≡ r.id) db.videos ids_printed in
    elim kept [
      | inr (n, e, h) ↦
          reconcile-status (tables_backend st token shown o) status_in _ law ttl limit id n (db, x)
            e h
            (λ vs k.
              list-All (λ i. (id ≡ i) ⊎ (id ≢ st.uuid i)) st token shown ttl limit db vs printed p
                small (same_or_apart st.uuid id (select stale db.videos) texts) k)
      | inl fresh ↦
          let apart =
            stale-apart id db.now (pos ttl) db.videos v.keyed
              (λ r q. spared db.now ttl r (fresh r q)) in
          reconcile-unlisted (tables_backend st token shown o) status_in _ law ttl limit id (db, x)
            (λ vs k.
              list-All (λ i. id ≢ st.uuid i) st token shown ttl limit db vs printed p small
                (apart_of_printed st.uuid id (select stale db.videos) texts apart) k)
    ]
