-- ===== src/Upload/Signing.antt =====
-- services/upload/internal/storage/minio.go: by which client a URL is signed, the store's own or
-- one for the host that a browser sees. `net/url` and the MinIO library are parameters.
use flowix.Common.{
  ℕ, ◌≡◌, ap, Bool-cases, inl, inr, String, ◌<>◌, Bool, Option, none, some, ◌==◌, arith,
  if◌then◌else◌,
}
use flowix.Upload.{Outcome, ok, fail}

-- What is read of a URL.
pub record Location : Type 0 where
  pub scheme : String
  pub host : String

-- `url.Parse`, the text of a parsed URL with another scheme and host, `minio.New` for a host and
-- whether TLS is used, and the signing of a PUT and of a part; `shown` is a number in print.
pub record Library (Client : Type 0) : Type 0 where
  pub parse : String → Option Location
  pub moved_to : Location → String → Option String
  pub new_client : String → Bool → Outcome Client
  pub sign_put : Client → String → Outcome String
  pub shown : ℕ → String
  pub sign_part : Client → String → String → ℕ → Outcome String

abbrev pub wrapped : String → Outcome String → Outcome String
wrapped msg (fail e) = fail (msg <> ": " <> e)
wrapped msg (ok u) = ok u

module _ {Client : Type 0} (lib : Library Client) (own : Client) where
  -- `PresignedPutObject`
  unfoldable pub presigned_put_object : String → Outcome String
  presigned_put_object key = wrapped ("presign put " <> key) (lib.sign_put own key)

  abbrev or_same : String → Option String → String
  or_same u none = u
  or_same u (some v) = v

  abbrev rewritten : Location → Outcome String → Outcome String
  rewritten pub_url (fail e) = fail e
  rewritten pub_url (ok u) = ok (or_same u (lib.moved_to pub_url u))

  abbrev signed_by : Location → String → Outcome Client → Outcome String
  unfolding presigned_put_object
  signed_by pub_url key (fail e) = rewritten pub_url (presigned_put_object key)
  signed_by pub_url key (ok c) = wrapped ("presign put " <> key) (lib.sign_put c key)

  abbrev external : String → Option Location → Outcome String
  unfolding signed_by
  external key none = presigned_put_object key
  external key (some pub_url) =
      if pub_url.host == ""
      then presigned_put_object key
      else signed_by pub_url key (lib.new_client pub_url.host (pub_url.scheme == "https"))

  -- `PresignedPutObjectExternal`
  unfoldable pub presigned_put_object_external : String → String → Outcome String
  unfolding external
  presigned_put_object_external key endpoint =
      if endpoint == "" then presigned_put_object key else external key (lib.parse endpoint)

  abbrev client_or_error : String → Outcome Client → Outcome Client
  client_or_error endpoint (fail e) = fail ("public client " <> endpoint <> ": " <> e)
  client_or_error endpoint (ok c) = ok c

  abbrev client_for : String → Option Location → Outcome Client
  client_for endpoint none = ok own
  client_for endpoint (some pub_url) =
      if pub_url.host == ""
      then ok own
      else client_or_error endpoint (lib.new_client pub_url.host (pub_url.scheme == "https"))

  -- `publicClient`
  unfoldable pub public_client : String → Outcome Client
  public_client endpoint =
      if endpoint == "" then ok own else client_for endpoint (lib.parse endpoint)

  abbrev part_by : String → String → ℕ → Outcome Client → Outcome String
  part_by key upload_id n (fail e) = fail e
  part_by key upload_id n (ok c) =
      wrapped ("presign part " <> lib.shown n <> " " <> key) (lib.sign_part c key upload_id n)

  -- `PresignPart`
  unfoldable pub presign_part : String → String → ℕ → String → Outcome String
  unfolding public_client
  presign_part key upload_id n endpoint = part_by key upload_id n (public_client endpoint)

  by_client :
      (key endpoint : String) (pub_url : Location) (o : Outcome Client) (c : Client)
      → client_or_error endpoint o ≡ ok c
      → signed_by pub_url key o ≡ wrapped ("presign put " <> key) (lib.sign_put c key)
  unfolding signed_by
  by_client key endpoint pub_url (fail e) c h = absurd (ground (arith, h))
  by_client key endpoint pub_url (ok d) c h =
      ap (λ x. wrapped ("presign put " <> key) (lib.sign_put x key)) (ground (arith, h))

  by_location :
      (key endpoint : String) (o : Option Location) (c : Client)
      → client_for endpoint o ≡ ok c
      → external key o ≡ wrapped ("presign put " <> key) (lib.sign_put c key)
  unfolding external presigned_put_object
  by_location key endpoint none c h =
      ap (λ x. wrapped ("presign put " <> key) (lib.sign_put x key)) (ground (arith, h))
  by_location key endpoint (some pub_url) c h = elim (Bool-cases (pub_url.host == "")) [
    | inl e ↦
        rw e (
          ap (λ x. wrapped ("presign put " <> key) (lib.sign_put x key))
            (ground (arith, rw e at h)))
    | inr e ↦ rw e (by_client key endpoint pub_url _ c (rw e at h))
  ]

  -- Where there is a client for parts, a whole PUT is signed by the same one.
  pub presigned_put_object_external_lem :
      (key endpoint : String) (c : Client)
      → public_client endpoint ≡ ok c
      → presigned_put_object_external key endpoint
        ≡ wrapped ("presign put " <> key) (lib.sign_put c key)
  unfolding presigned_put_object_external public_client presigned_put_object
  presigned_put_object_external_lem key endpoint c h = elim (Bool-cases (endpoint == "")) [
    | inl e ↦
        rw e (
          ap (λ x. wrapped ("presign put " <> key) (lib.sign_put x key))
            (ground (arith, rw e at h)))
    | inr e ↦ rw e (by_location key endpoint (lib.parse endpoint) c (rw e at h))
  ]
