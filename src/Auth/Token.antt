-- ===== src/Auth/Token.antt =====
-- JSON web tokens as the services use them. `jwt.Parse`, called with the method HS256 and with
-- expiration required, and `SignedString` belong to golang-jwt and are a parameter.
use flowix.Common.{ℕ, ◌<◌, ◌≡◌, String, Option, some}

-- The claims of a token: `text k` is `claims[k].(string)`, "" where the claim is missing or is no
-- string; times are in seconds.
pub record Claims : Type 0 where
  pub text : String → String
  pub exp : ℕ
  pub iat : ℕ

-- `Parse` gives an error or an invalid token, or a valid token whose claims may be no map.
pub data Parsed : Type 0 where
  rejected : Parsed
  accepted : Option Claims → Parsed

-- `parse now secret token` and `sign secret claims`
pub record Jwt : Type 0 where
  pub parse : ℕ → String → String → Parsed
  pub sign : String → Claims → Option String

-- What the library documents of the two: a token signed with the secret parses, until it expires,
-- to the claims that were signed. This is stated for the claims that the services read.
pub record IsLawful (jwt : Jwt) : Type 0 where
  pub parse-sign :
      (now : ℕ) (secret token : String) (c : Claims)
      → jwt.sign secret c ≡ some token
      → now < c.exp
      → (d : Claims) × (jwt.parse now secret token ≡ accepted (some d))
        × (d.text "type" ≡ c.text "type")
        × (d.text "video_id" ≡ c.text "video_id")
        × (d.text "sub" ≡ c.text "sub")
