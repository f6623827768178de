-- ===== src/Gateway/Cors.antt =====
-- services/gateway/internal/middleware/cors.go: cross-origin requests from an explicit list of
-- origins.
use flowix.Common.{
  ◌≡◌, ◌≢◌, ◌⊎◌, inl, inr, refl, ◌∙◌, String, ◌<>◌, Bool, true, ◌&&◌, not, List, [], ◌∷◌, any, ◌==◌,
  eq_iff, arith, if◌then◌else◌, Bool-cases,
}
use flowix.Http.{Headers, Request, Step, reply, next, header, set}

abbrev join_rest : String → String → List String → String
join_rest sep e [] = e
join_rest sep e (f ∷ es) = e <> sep <> join_rest sep f es

-- `join`
unfoldable pub join : List String → String → String
join [] sep = ""
join (e ∷ es) sep = join_rest sep e es

abbrev or_default : List String → List String → List String
or_default [] d = d
or_default (e ∷ es) d = e ∷ es

abbrev methods_val : List String → String
unfolding join
methods_val ms =
    join (or_default ms ("GET" ∷ "POST" ∷ "PUT" ∷ "PATCH" ∷ "DELETE" ∷ "OPTIONS" ∷ "HEAD" ∷ []))
      ", "

abbrev headers_val : List String → String
unfolding join
headers_val hs =
    join
      (or_default hs (
        "Authorization" ∷ "Content-Type" ∷ "Accept" ∷ "Origin" ∷ "X-Requested-With" ∷ "Range" ∷ []))
      ", "

-- The origin is in the set `allowed`, which leaves out "" and the wildcard.
unfoldable pub is_allowed : List String → String → Bool
is_allowed origins origin = any (λ o. not (o == "") && not (o == "*") && o == origin) origins

abbrev allow : String → String → String → Headers → Headers
allow origin ms hs w =
    set "Access-Control-Expose-Headers" "Content-Length, Content-Range, Content-Type, X-Request-Id"
      (set "Access-Control-Max-Age" "86400" (
        set "Access-Control-Allow-Headers" hs (
          set "Access-Control-Allow-Methods" ms (
            set "Access-Control-Allow-Credentials" "true"
              (set "Access-Control-Allow-Origin" origin w)))))

abbrev pub finish : String → Headers → Request → Step
finish method w r = if method == "OPTIONS" then reply 204 w "" else next w r

-- `CORS`
unfoldable pub cors : List String → List String → List String → Headers → Request → Step
unfolding is_allowed methods_val headers_val
cors origins methods headers w r =
    let ms = methods_val methods in
    let hs = headers_val headers in
    let origin = header r "Origin" in
    if origin == ""
    then if r.method == "OPTIONS"
      then reply 204
          (set "Access-Control-Allow-Headers" hs (set "Access-Control-Allow-Methods" ms w)) ""
      else next w r
    else finish r.method
        (if is_allowed origins origin
          then allow origin ms hs (set "Vary" "Origin" w)
          else set "Vary" "Origin" w)
        r

abbrev pub headers_of : Step → Headers
headers_of (reply code h body) = h
headers_of (next h r) = h

-- The origin is one of the list.
abbrev pub IsListed : String → List String → Type 0
IsListed origin [] = ⊥
IsListed origin (o ∷ os) = (o ≡ origin) ⊎ IsListed origin os

is_allowed-IsListed :
    (os : List String) (origin : String)
    → is_allowed os origin ≡ true
    → (IsListed origin os × (origin ≢ "*"))
unfolding is_allowed
is_allowed-IsListed [] origin h = absurd (ground arith)
is_allowed-IsListed (o ∷ os) origin h =
    elim (Bool-cases (not (o == "") && not (o == "*") && o == origin)) [
      | inl e ↦
          let q : o ≡ origin = ground (arith, eq_iff o origin) in
          (inl q, λ k. ground (arith, eq_iff o "*", q))
      | inr e ↦ let (m, n) = is_allowed-IsListed os origin (ground arith) in (inr m, n)
    ]

finish-headers :
    (m : String) (w : Headers) (r : Request) (k : String) → headers_of (finish m w r) k ≡ w k
finish-headers m w r k = elim (Bool-cases (m == "OPTIONS")) [
  | inl e ↦ rw e refl
  | inr e ↦ rw e refl
]

-- Where the answer allows an origin, that is the request's own, which is in the configured list and
-- is not "*"; and where it does not, it does not allow credentials either. The condition: no such
-- header was set before.
pub cors-IsListed :
    (origins methods headers : List String) (w : Headers) (r : Request)
    → w "Access-Control-Allow-Origin" ≡ ""
    → w "Access-Control-Allow-Credentials" ≡ ""
    → ((headers_of (cors origins methods headers w r) "Access-Control-Allow-Origin"
          ≡ header r "Origin")
        × (IsListed (header r "Origin") origins × (header r "Origin" ≢ "*")))
      ⊎ ((headers_of (cors origins methods headers w r) "Access-Control-Allow-Origin" ≡ "")
          × (headers_of (cors origins methods headers w r) "Access-Control-Allow-Credentials" ≡ ""))
unfolding cors
cors-IsListed origins methods headers w r a c = elim (Bool-cases (header r "Origin" == "")) [
  | inl e ↦ elim (Bool-cases (r.method == "OPTIONS")) [
    | inl f ↦ rw (e, f) (inr (a, c))
    | inr f ↦ rw (e, f) (inr (a, c))
  ]
  | inr e ↦ elim (Bool-cases (is_allowed origins (header r "Origin"))) [
    | inl f ↦
        rw (e, f)
          (inl (
            finish-headers r.method _ r "Access-Control-Allow-Origin",
            is_allowed-IsListed origins (header r "Origin") f,
          ))
    | inr f ↦
        rw (e, f)
          (inr (
            finish-headers r.method _ r "Access-Control-Allow-Origin" ∙ a,
            finish-headers r.method _ r "Access-Control-Allow-Credentials" ∙ c,
          ))
  ]
]
