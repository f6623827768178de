-- ===== src/Platform/Stale.antt =====
-- The reconciler of the upload service (services/upload/internal/reconciler/reconciler.go, by
-- `ListStaleUploaded` and `SetStatus` of services/upload/internal/client/metadata.go) run against
-- the metadata service's tables.
pub mod Pass
pub mod Listed
use flowix.Common.{
  ℕ, zero, suc, ◌<◌, ◌≡◌, ◌≢◌, ◌⊎◌, inl, inr, refl, sym, ap, ◌∙◌, String, ◌<>◌, Bool, true, false,
  ◌||◌, ◌&&◌, Option, none, some, List, [], ◌∷◌, map, ◌==◌, eq_iff, ltb, eqb, arith, select, take,
  All, All-take, All-map, if◌then◌else◌, Bool-cases, String-cases,
}
use flowix.Common.Int.{ℤ, pos, negsuc}
use flowix.Common.Keys.{member, Nodup}
use flowix.Common.Sort.{sort, All-sort}
use flowix.Common.Strconv.{atoi}
use flowix.Http.{Request, Headers, Step, reply, next, no_headers, set, http_error}
use flowix.Auth.{internal_auth}
use flowix.Metadata.Model.{StaleUpload as StaleVideo, UpdateStatusRequest}
use flowix.Metadata.Database.{VideoRow, Database, Faults, row_of}
use flowix.Metadata.Database.Rows.{ids}
use flowix.Metadata.Database.Invariant.{IsValid}
use flowix.Metadata.Repository
use flowix.Metadata.Repository.{Result, is_stale, older_first}
use flowix.Metadata.Handler.{Reply, stale_reply, positive_upto}
use flowix.Metadata.Handler
use flowix.Metadata.Server.{
  Setup, Bodies, Route, internal, update_status, list_stale, Answer, refused, replied, serve,
  handle, handle_next,
}
use flowix.Upload.{Outcome, ok, fail, VideoUploadedEvent, raw_key}
use flowix.Upload.Client
use flowix.Upload.Client.{StaleUpload}
use flowix.Upload.Reconciler.{Backend, IsLawful, reconcile}
use flowix.Platform.{no_bodies}
use flowix.Platform.Ownership.{answered}

-- The object store and the queue, over the state behind them.
pub record Objects (R : Type 0) : Type 0 where
  pub stat_object_size : String → R → Outcome ℕ
  pub find_upload_id : String → R → Outcome String
  pub abort_multipart_upload : String → String → R → Outcome (Unit {0}) × R
  pub publish : VideoUploadedEvent → R → Outcome (Unit {0}) × R

abbrev token_header : String → Headers
token_header token = if token == "" then no_headers else set "X-Internal-Token" token no_headers

-- The request of `ListStaleUploaded`; `shown` prints a number.
abbrev stale_request : (ℕ → String) → String → ℕ → ℕ → Request
stale_request shown token ttl limit = record {
  method = "GET";
  path = "/internal/videos/stale";
  headers = token_header token;
  query = λ k.
      if k == "older_than_seconds" then shown ttl else if k == "limit" then shown limit else "";
  param = λ _. "";
  remote_addr = "";
  user = "";
}

abbrev stale_route : Route
stale_route = record {
  method = "GET";
  pattern = "/internal/videos/stale";
  guard = internal;
  operation = list_stale;
}

-- The request of `SetStatus`.
abbrev status_request : String → String → Request
status_request token id = record {
  method = "PATCH";
  path = "/internal/videos/" <> id <> "/status";
  headers = token_header token;
  query = λ _. "";
  param = λ k. if k == "id" then id else "";
  remote_addr = "";
  user = "";
}

abbrev status_body : String → Bodies
status_body s = record no_bodies {
  progress =
      some (record { status = s; renditions = []; thumbnail_s3_key = none; thumbnail_url = none });
}

abbrev status_route : Route
status_route = record {
  method = "PATCH";
  pattern = "/internal/videos/{id}/status";
  guard = internal;
  operation = update_status;
}

module _ (st : Setup) (token : String) (shown : ℕ → String) where
  unfoldable pub stale_answer : ℕ → ℕ → Database → Answer
  unfolding serve
  stale_answer ttl limit db =
      (serve st stale_route no_bodies no_headers (stale_request shown token ttl limit) db).0

  unfoldable pub status_answer : String → String → Database → Answer × Database
  unfolding serve
  status_answer id s db =
      serve st status_route (status_body s) no_headers (status_request token id) db

  -- What the reconciler of the upload service works on: the metadata service's tables by its
  -- client, and the objects.
  abbrev pub tables_backend : {R : Type 0} → Objects R → Backend (Database × R)
  unfolding stale_answer status_answer Client.list_stale_uploaded Client.set_status
  tables_backend o = record {
    list_stale_uploaded =
        λ ttl limit w. Client.list_stale_uploaded (ok (answered (stale_answer ttl limit w.0)));
    set_status = λ id s w.
        let p = status_answer id s w.0 in (Client.set_status (ok (answered p.0)), (p.1, w.1));
    stat_object_size = λ k w. o.stat_object_size k w.1;
    find_upload_id = λ k w. o.find_upload_id k w.1;
    abort_multipart_upload = λ k u w. let p = o.abort_multipart_upload k u w.1 in (p.0, (w.0, p.1));
    publish = λ e w. let p = o.publish e w.1 in (p.0, (w.0, p.1));
  }

-- The status of a video in the tables, "" for none.
abbrev pub status_in : {R : Type 0} → String → Database × R → String
status_in id w = elim (row_of id w.0.videos) [ none ↦ "" | some r ↦ r.status ]
