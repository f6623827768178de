-- ===== src/Http.antt =====
-- HTTP messages as the handlers and middleware of net/http see them.
use flowix.Common.{ℕ, String, ◌==◌, if◌then◌else◌}

-- A header map by canonical name: what `Get` returns, "" for a header that is not there.
-- `X-Request-ID` and `X-Request-Id` are one name, X-Request-Id, as in net/http.
abbrev pub Headers : Type 0
Headers = String → String

-- `Header.Set`
abbrev pub set : String → String → Headers → Headers
set k v h = λ j. if j == k then v else h j

-- `Header.Del`
abbrev pub del : String → Headers → Headers
del k h = set k "" h

abbrev pub no_headers : Headers
no_headers _ = ""

-- A request with the values that the handlers take from it: `URL.Query().Get`, chi's URL
-- parameters, and the user id of the request's context ("" if there is none).
pub record Request : Type 0 where
  pub method : String
  pub path : String
  pub headers : Headers
  pub query : String → String
  pub param : String → String
  pub remote_addr : String
  pub user : String

abbrev pub header : Request → String → String
header r k = r.headers k

abbrev pub set_header : String → String → Request → Request
set_header k v r = record r { headers = set k v r.headers }

-- What a middleware does with a request: it answers with a status, response headers and a body,
-- or calls the next handler with the response headers set so far and a request.
pub data Step : Type 0 where
  reply : ℕ → Headers → String → Step
  next : Headers → Request → Step

-- `http.Error`: it sets the content type itself, whatever the handler had set before.
unfoldable pub http_error : Headers → String → ℕ → Step
http_error w body code =
    reply code
      (set "X-Content-Type-Options" "nosniff" (set "Content-Type" "text/plain; charset=utf-8" w))
      body
