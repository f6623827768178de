-- ===== src/Upload/Form.antt =====
-- `Upload` of services/upload/internal/handler/upload.go: an upload as a form.
use flowix.Common.{ℕ, String, ◌&&◌, not, List, ◌==◌, if◌then◌else◌}
use flowix.Common.Text.{contains}
use flowix.Http.{Request}
use flowix.Upload.{
  Outcome, ok, fail, Services, Env, Reply, write_json, write_error, uploaded_video, raw_key,
  token_of, is_allowed_content_type, max_bytes,
}

pub record Upload : Type 0 where
  pub filename : String
  pub content_type : String
  pub content : List ℕ
  pub title : String
  pub description : String

-- What `ParseMultipartForm` and `FormFile` make of a body.
pub data Form : Type 0 where
  too_large bad_form no_file : Form
  file : Upload → Form

abbrev form_title : Upload → String
form_title u =
    if not (u.title == "")
    then u.title
    else if not (u.filename == "")
    then u.filename
    else "Untitled"

abbrev stored_type : Upload → String
stored_type u = if u.content_type == "" then "video/mp4" else u.content_type

abbrev form_published : {W : Type 0} → String → Outcome (Unit {0}) × W → Reply × W
form_published id (fail e, w) = (write_error 500 "queue error", w)
form_published id (ok _, w) = (write_json 201 (uploaded_video id (raw_key id)), w)

abbrev form_stored :
    {W : Type 0} → Services W → String → String → Outcome (Unit {0}) × W → Reply × W
unfolding contains
form_stored sv id user (fail e, w) =
    if contains e "http: request body too large"
    then (write_error 413 "file too large", w)
    else (write_error 500 "storage error", w)
form_stored sv id user (ok _, w) =
    form_published id
      (sv.publish (record { video_id = id; s3_key = raw_key id; owner_id = user }) w)

abbrev form_created : {W : Type 0} → Services W → Upload → String → Outcome String × W → Reply × W
form_created sv u user (fail e, w) = (write_error 502 "metadata unavailable", w)
form_created sv u user (ok id, w) =
    form_stored sv id user (sv.put_object (raw_key id) u.content (stored_type u) w)

abbrev form_reply : {W : Type 0} → Services W → Request → Form → W → Reply × W
unfolding is_allowed_content_type
form_reply sv r too_large w = (write_error 413 "file too large", w)
form_reply sv r bad_form w = (write_error 400 "invalid form", w)
form_reply sv r no_file w = (write_error 400 "file required (field 'file')", w)
form_reply sv r (file u) w =
    let rest =
      form_created sv u r.user (sv.create_video (token_of r) (form_title u) u.description w) in
    if not (u.content_type == "") && not (is_allowed_content_type u.content_type)
    then (write_error 400 "unsupported content type", w)
    else rest

-- `Upload`; `parse` is what the form comes to when a body is cut at a limit.
unfoldable pub upload : {W : Type 0} → Services W → Env → (ℕ → Form) → Request → W → Reply × W
unfolding is_allowed_content_type max_bytes form_stored
upload sv env parse r w = form_reply sv r (parse (max_bytes env)) w
