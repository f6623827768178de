-- ===== src/Pkg/Json.antt =====
-- pkg/httputil/json.go: when a JSON answer is indented. The encoder is not modelled.
use flowix.Common.{Bool, true, false, ◌==◌, not, if◌then◌else◌}
use flowix.Http.{Request, Headers, set}
use flowix.Pkg.Env.{Getenv, parse_bool, bool_or}

-- `shouldPretty`
unfoldable pub should_pretty : Getenv → Request → Bool
unfolding parse_bool
should_pretty env r =
    if not (r.query "pretty" == "")
    then bool_or true (parse_bool (r.query "pretty"))
    else if not (env "PRETTY_JSON" == "")
    then bool_or false (parse_bool (env "PRETTY_JSON"))
    else false

-- The headers that `WriteJSON` sends.
abbrev pub json_headers : Headers → Headers
json_headers w = set "Content-Type" "application/json; charset=utf-8" w
