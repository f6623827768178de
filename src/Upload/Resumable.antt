-- ===== src/Upload/Resumable.antt =====
-- services/upload/internal/handler/resumable.go: uploads in chunks that the service appends itself.
pub mod Append
pub mod Sequence
use Prim.Native.Char.{Char, code}
use Prim.Native.String.{[] as nil, ◌∷◌ as ◌∷∷◌}
use flowix.Common.{
  ℕ, zero, suc, ◌+◌, ◌-◌, String, ◌<>◌, Bool, true, false, ◌&&◌, not, Option, none, some, List, [],
  ◌∷◌, ◌++◌, length, take, ◌==◌, eqb, ltb, leb, if◌then◌else◌,
}
use flowix.Common.Int.{ℤ, pos, negsuc, int64, max_int64}
use flowix.Common.Text.{trim_space, has_prefix, before, trim_prefix}
use flowix.Common.Strconv.{digits}
use flowix.Http.{Request}
use flowix.Upload.{
  Outcome, ok, fail, ObjectInfo, Services, Env, Reply, write_json, write_error, offset, stored,
  mismatch, complete_upload, resume, raw_key, guarded, max_bytes,
}

-- A body: its bytes up to its end, or up to where the connection breaks.
pub data Body : Type 0 where
  whole : List ℕ → Body
  broken : List ℕ → Body

pub data Read : Type 0 where
  too_large failed : Read
  chunk : List ℕ → Read

abbrev pub after_eof : Body → Read
after_eof (whole bs) = chunk bs
after_eof (broken bs) = failed

-- `io.ReadAll` of a body under `http.MaxBytesReader`.
unfoldable pub read_all : ℕ → Body → Read
read_all most (whole bs) = if ltb most (length bs) then too_large else chunk bs
read_all most (broken bs) = if ltb most (length bs) then too_large else failed

abbrev pub bytes_of : Body → List ℕ
bytes_of (whole bs) = bs
bytes_of (broken bs) = bs

-- `io.ReadAll` of the first `n` bytes (`io.LimitReader`) of such a body.
unfoldable pub read_limited : ℕ → ℤ → Body → Read
read_limited most (negsuc n) b = chunk []
read_limited most (pos n) b =
    let got = take n (bytes_of b) in
    if ltb most (length got)
    then too_large
    else if eqb (length got) n
    then chunk got
    else after_eof b

abbrev cut_cons : Char → Option (String × String) → Option (String × String)
cut_cons c none = none
cut_cons c (some (s, t)) = some (c ∷∷ s, t)

-- A text cut at the first `sep`.
unfoldable pub cut : ℕ → String → Option (String × String)
cut sep nil = none
cut sep (c ∷∷ s) =
    let rest = cut sep s in if eqb (code c) sep then some (nil, s) else cut_cons c rest

-- `ParseInt` with its error dropped gives the greatest int64 for a number out of range.
abbrev clamp : Option ℕ → Option ℕ
clamp none = none
clamp (some n) = some (if leb n max_int64 then n else max_int64)

abbrev decimal : String → Option ℕ
unfolding digits
decimal s = if s == "" then none else clamp (digits 0 s)

pub record ContentRange : Type 0 where
  pub start : ℕ
  pub end : ℕ
  pub total : Option ℕ

abbrev range_of : Option ℕ → Option ℕ → Option (Option ℕ) → Option ContentRange
range_of (some a) (some b) (some t) = some (record { start = a; end = b; total = t })
range_of _ _ _ = none

abbrev known : Option ℕ → Option (Option ℕ)
known none = none
known (some n) = some (some n)

abbrev total_of : String → Option (Option ℕ)
total_of s = if s == "*" then some none else known (decimal s)

abbrev end_total : String → Option (String × String) → Option ContentRange
end_total a none = none
end_total a (some (b, t)) = range_of (decimal a) (decimal b) (total_of t)

abbrev start_end : Option (String × String) → Option ContentRange
unfolding cut
start_end none = none
start_end (some (a, rest)) = end_total a (cut b'/' rest)

-- `parseContentRange`: "bytes start-end/total", where the total may be "*".
unfoldable pub parse_content_range : String → Option ContentRange
unfolding cut trim_space has_prefix trim_prefix decimal start_end
parse_content_range v =
    let s = trim_space v in
    if has_prefix s "bytes " then start_end (cut b'-' (trim_prefix s "bytes ")) else none

abbrev pub size_or_zero : Outcome ObjectInfo → ℕ
size_or_zero (fail e) = 0
size_or_zero (ok info) = info.size

-- `Status`: any error of the object store counts as nothing uploaded.
unfoldable pub status : {W : Type 0} → Services W → Request → W → Reply × W
unfolding guarded
status sv r w =
    guarded sv (r.param "id") r.user w
      (write_json 200 (offset (size_or_zero (sv.stat_object_info (raw_key (r.param "id")) w))), w)

abbrev pub stored_as : Request → String
stored_as r = if r.headers "Content-Type" == "" then "video/mp4" else r.headers "Content-Type"

abbrev pub put_reply : {W : Type 0} → Reply → Outcome (Unit {0}) × W → Reply × W
put_reply reply (fail e, w) = (write_error 500 "storage error", w)
put_reply reply (ok _, w) = (reply, w)

-- A request without Content-Range puts its whole body.
abbrev pub put_whole : {W : Type 0} → Services W → String → String → Read → W → Reply × W
put_whole sv key ct too_large w = (write_error 413 "file too large", w)
put_whole sv key ct failed w = (write_error 400 "read body", w)
put_whole sv key ct (chunk bs) w =
    put_reply (write_json 200 (stored (length bs))) (sv.put_object key bs ct w)

-- 200 when the total is reached, and 308 with the offset to go on from before that.
abbrev pub progress : ℕ → Option ℕ → Reply
progress uploaded none = record {
  status = 308;
  range = some (uploaded - 1);
  payload = resume uploaded none;
}
progress uploaded (some total) =
    if eqb uploaded total
    then write_json 200 (complete_upload uploaded total)
    else if ltb uploaded total
    then record {
      status = 308;
      range = some (uploaded - 1);
      payload = resume uploaded (some total);
    }
    else record { status = 308; range = some (uploaded - 1); payload = resume uploaded none }

abbrev pub put_appended :
    {W : Type 0}
    → Services W
    → String
    → String
    → Option ℕ
    → List ℕ
    → Outcome (List ℕ)
    → W
    → Reply × W
put_appended sv key ct total bs (fail e) w = (write_error 500 "get existing failed", w)
put_appended sv key ct total bs (ok old) w =
    put_reply (progress (length (old ++ bs)) total) (sv.put_object key (old ++ bs) ct w)

-- The chunk is put behind what is there; `GetObject` and the reading of it are one operation.
abbrev pub append_chunk :
    {W : Type 0} → Services W → String → String → Option ℕ → ℕ → List ℕ → W → Reply × W
append_chunk sv key ct total existing bs w =
    put_appended sv key ct total bs (if eqb existing 0 then ok [] else sv.get_object key w) w

abbrev pub is_size : ℤ → ℕ → Bool
is_size (pos n) m = eqb n m
is_size (negsuc n) m = false

abbrev pub with_chunk :
    {W : Type 0} → Services W → String → String → ContentRange → ℕ → Read → W → Reply × W
with_chunk sv key ct cr existing too_large w = (write_error 413 "file too large", w)
with_chunk sv key ct cr existing failed w = (write_error 400 "read chunk", w)
with_chunk sv key ct cr existing (chunk bs) w =
    let rest = append_chunk sv key ct cr.total existing bs w in
    if is_size (int64 (cr.end - cr.start + 1)) (length bs)
    then rest
    else (write_error 400 "chunk size mismatch", w)

abbrev pub exceeds : ℤ → ℕ → Bool
exceeds (pos n) most = ltb most n
exceeds (negsuc n) most = false

-- `existing` is `start` here, so the sizes are sums of numbers below 2^63; they wrap around.
abbrev pub upload_range :
    {W : Type 0} → Services W → ℕ → Request → Body → ContentRange → ℕ → W → Reply × W
unfolding read_limited
upload_range sv most r body cr existing w =
    let rest =
      with_chunk sv (raw_key (r.param "id")) (stored_as r) cr existing
        (read_limited most (int64 (cr.end - cr.start + 1 + 1)) body) w in
    if not (eqb cr.start existing)
    then (
      record {
        status = 416;
        range = some (if eqb existing 0 then 0 else existing - 1);
        payload = mismatch existing cr.start;
      },
      w,
    )
    else if exceeds (int64 (existing + (cr.end - cr.start + 1))) most
    then (write_error 413 "file too large", w)
    else rest

abbrev pub upload_ranged :
    {W : Type 0} → Services W → ℕ → Request → Body → Option ContentRange → W → Reply × W
unfolding upload_range
upload_ranged sv most r body none w = (write_error 400 "invalid Content-Range", w)
upload_ranged sv most r body (some cr) w =
    if ltb cr.end cr.start
    then (write_error 400 "invalid range", w)
    else upload_range sv most r body cr
        (size_or_zero (sv.stat_object_info (raw_key (r.param "id")) w)) w

-- `Upload`
unfoldable pub upload : {W : Type 0} → Services W → Env → Body → Request → W → Reply × W
unfolding guarded max_bytes read_all parse_content_range upload_range upload_ranged
upload sv env body r w = guarded sv (r.param "id") r.user w (
    if r.headers "Content-Range" == ""
    then put_whole sv (raw_key (r.param "id")) (stored_as r) (read_all (max_bytes env) body) w
    else upload_ranged sv (max_bytes env) r body (parse_content_range (r.headers "Content-Range"))
        w)
