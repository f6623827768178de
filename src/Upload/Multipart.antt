-- ===== src/Upload/Multipart.antt =====
-- services/upload/internal/handler/multipart.go: uploads in parts that the browser sends to the
-- object store itself.
use flowix.Common.{ℕ, String, ◌||◌, Option, none, some, List, [], ◌∷◌, ltb, if◌then◌else◌}
use flowix.Common.Int.{ℤ, pos, negsuc}
use flowix.Common.Text.{trim_space}
use flowix.Http.{Request}
use flowix.Upload.{
  Outcome, ok, fail, MultipartPart, Services, Env, Reply, write_json, write_error, session, parts,
  part_url, raw_key, token_of, guarded, announce,
}
use flowix.Upload.Presign.{PresignRequest, title_of, bad_type, public_endpoint}

-- `MultipartChunkSize` and `maxPartNumber`
abbrev pub multipart_chunk_size : ℕ
multipart_chunk_size = 8388608

abbrev pub max_part_number : ℕ
max_part_number = 10000

abbrev session_reply : {W : Type 0} → String → Outcome String × W → Reply × W
session_reply id (fail e, w) = (write_error 500 "create multipart upload failed", w)
session_reply id (ok upload, w) =
    (write_json 201 (session id (raw_key id) upload multipart_chunk_size), w)

abbrev create_session : {W : Type 0} → Services W → String → Outcome String × W → Reply × W
create_session sv ct (fail e, w) = (write_error 502 "metadata unavailable", w)
create_session sv ct (ok id, w) = session_reply id (sv.create_multipart_upload (raw_key id) ct w)

-- `Create`
unfoldable pub create : {W : Type 0} → Services W → Option PresignRequest → Request → W → Reply × W
unfolding title_of bad_type trim_space
create sv none r w = (write_error 400 "invalid body", w)
create sv (some req) r w =
    let rest =
      create_session sv (trim_space req.content_type)
        (sv.create_video (token_of r) (title_of req) req.description w) in
    if bad_type req then (write_error 400 "unsupported content type", w) else rest

abbrev parts_reply : String → String → Outcome (List MultipartPart) → Reply
parts_reply id upload (fail e) = write_error 500 "list parts failed"
parts_reply id upload (ok ps) = write_json 200 (parts id upload multipart_chunk_size ps)

abbrev list_session : {W : Type 0} → Services W → String → W → Outcome String → Reply
list_session sv id w (fail e) = write_error 404 "multipart upload not found"
list_session sv id w (ok upload) = parts_reply id upload (sv.list_parts (raw_key id) upload w)

-- `Parts`
unfoldable pub list_uploaded : {W : Type 0} → Services W → Request → W → Reply × W
unfolding guarded
list_uploaded sv r w =
    guarded sv (r.param "id") r.user w
      (list_session sv (r.param "id") w (sv.find_upload_id (raw_key (r.param "id")) w), w)

abbrev part_reply : ℕ → Outcome String → Reply
part_reply n (fail e) = write_error 500 "presign part failed"
part_reply n (ok url) = write_json 200 (part_url n url)

abbrev sign_part : {W : Type 0} → Services W → Env → String → ℕ → W → Outcome String → Reply
sign_part sv env id n w (fail e) = write_error 404 "multipart upload not found"
sign_part sv env id n w (ok upload) =
    part_reply n (sv.presign_part (raw_key id) upload n (public_endpoint env) w)

-- A part number in the body, from 1 to `max_part_number`.
abbrev number_reply : {W : Type 0} → Services W → Env → String → Option ℤ → W → Reply
number_reply sv env id none w = write_error 400 "invalid body"
number_reply sv env id (some (negsuc n)) w = write_error 400 "part_number must be in [1,10000]"
number_reply sv env id (some (pos n)) w =
    if ltb n 1 || ltb max_part_number n
    then write_error 400 "part_number must be in [1,10000]"
    else sign_part sv env id n w (sv.find_upload_id (raw_key id) w)

-- `PresignPart`
unfoldable pub presign_part : {W : Type 0} → Services W → Env → Option ℤ → Request → W → Reply × W
unfolding guarded
presign_part sv env body r w =
    guarded sv (r.param "id") r.user w (number_reply sv env (r.param "id") body w, w)

abbrev assembled : {W : Type 0} → Services W → String → String → Outcome ℕ × W → Reply × W
unfolding announce
assembled sv id user (fail e, w) = (write_error 500 "complete multipart upload failed", w)
assembled sv id user (ok size, w) = announce sv "assembled object not found" id user w

abbrev assemble :
    {W : Type 0}
    → Services W
    → String
    → String
    → String
    → Outcome (List MultipartPart)
    → W
    → Reply × W
assemble sv id user upload (fail e) w = (write_error 500 "list parts failed", w)
assemble sv id user upload (ok []) w = (write_error 400 "no parts uploaded", w)
assemble sv id user upload (ok (p ∷ ps)) w =
    assembled sv id user (sv.complete_multipart_upload (raw_key id) upload (p ∷ ps) w)

abbrev complete_session :
    {W : Type 0} → Services W → String → String → Outcome String → W → Reply × W
complete_session sv id user (fail e) w = (write_error 404 "multipart upload not found", w)
complete_session sv id user (ok upload) w =
    assemble sv id user upload (sv.list_parts (raw_key id) upload w) w

-- `Complete`
unfoldable pub complete : {W : Type 0} → Services W → Request → W → Reply × W
unfolding guarded announce
complete sv r w =
    guarded sv (r.param "id") r.user w
      (complete_session sv (r.param "id") r.user (sv.find_upload_id (raw_key (r.param "id")) w) w)
