-- ===== src/Lib.antt =====
-- A verification library for the Go services of Flowix, a video platform: a gateway in front of a
-- metadata service and an upload service, with shared middleware.
--
-- The gateway guards the streams of private videos and hands out stream tokens; it asks the
-- metadata service for a video's owner and visibility and caches the answers. The metadata service
-- keeps the videos and their renditions in Postgres. The upload service creates a video there,
-- takes its file by a form, by a signed PUT, in parts or in chunks, checks the owner with the
-- metadata service, and publishes an event for the transcoder; its reconciler repairs uploads that
-- are stuck.
--
-- Files:
--   Common, Common/*: names of the libraries that all files use, Boolean tests, lists, Go's
--     `strings` and `strconv`, 64-bit integers, insertion sort.
--   Http: requests, headers and what a middleware does with a request.
--   Auth, Auth/*: pkg/middleware/auth.go (`AuthMiddleware` is auth_middleware, `OptionalAuth` is
--     optional_auth) and services/metadata/internal/middleware/internal.go.
--   Gateway/VideoId, HlsToken, MetaCache, HlsAuth: services/gateway/internal/middleware/hlsauth.go.
--     The cache is a record with the keys of its map and its list in order of use; get and put are
--     functions on it. HlsAuth/Concurrent has the steps of requests that share the cache, which
--     is locked only while it is read or written.
--   Gateway/ClientIp, Gateway/Cors and Gateway/RateLimit: clientip.go, cors.go and ratelimit.go
--     beside it. The limiter's script is a step on the counter that Redis has under its key;
--     RateLimit/Client runs the middleware on the requests of one client.
--   Gateway/Docs, Gateway/Docs/Json and Rewrite: services/gateway/internal/handler/docs.go, the
--     merge of the API documents.
--   Gateway/Proxy: services/gateway/internal/proxy/proxy.go.
--   Gateway/Router: services/gateway/cmd/server/main.go: the routes as a table, and serve, which
--     takes a request through the middleware of all routes and of its own to an upstream.
--     Gateway/Startup: what main of the same file reads from the environment.
--   Metadata/Server: services/metadata/cmd/server/main.go, the routes in the same way over the
--     handlers, and Metadata/Server/Startup, what its main reads and sets up. Server/Invariant runs
--     any requests on the constraints of deploy/migrations (Database/Invariant).
--   Metadata/Model, Database, Repository, Handler: services/metadata/internal/model, repository and
--     handler. The tables are lists; an operation takes them, with a fault for each of its SQL
--     statements, and gives a result and the tables after it.
--   Metadata/Storage: services/metadata/internal/storage/minio.go; Storage/Deleted has the handler
--     Delete with the store behind it.
--   Upload: services/upload/internal/handler. The handlers take the package's interfaces as a
--     record Services over a state W, and give a reply and the state after it. Form, Presign,
--     Multipart and Resumable are the handlers; Owner, Announced, Resumable/Append and
--     Resumable/Sequence are what is proved of them.
--   Upload/Objects, Sessions and Signing, Client, Reconciler: storage/minio.go, client/metadata.go and
--     reconciler/reconciler.go of services/upload/internal.
--   Upload/Queue: services/upload/internal/queue/publisher.go. Each clause after a call of the broker
--     goes on with what the call gave.
--   Upload/Server: services/upload/cmd/server/main.go, the routes over the handlers, and in
--     Upload/Server/Setup what its main reads from the environment.
--   Pkg: pkg/httpserver/server.go, pkg/middleware/logger.go, pkg/httputil/json.go, and how the main
--     files read the environment.
--   Platform: the upload service's owner check, its creation of a video, its reconciler's calls, and
--     the gateway's guard of the streams, each with the metadata service's routes behind its client;
--     Platform/Startup: the services started in one environment.
--   */Tests: small instances of the parameters and runs of the theorems on them.
--
-- Parameters: golang-jwt (Auth/Token), Go's net package (Gateway/ClientIp), object stores, the
-- transport of HTTP calls, net/http's server, amqp and the broker, chi, which chooses a route, and how
-- Postgres reads a text as the UUID of a row (`uuid`; another spelling of an id is the same row).
-- The laws that a theorem needs of them are records (IsLawful, IsStore, IsUp), which the Tests fill.
--
-- Numbers are natural numbers; sizes of resumable uploads are 64-bit integers with their
-- wrap-around. Times are numbers that the operations take. Loops are structural, but for the one
-- over the pages of `ListParts`, which takes fuel; more fuel than there are parts is enough, since a
-- page that is not the last has a part (Upload/Objects takes 10001; an upload has at most 10000 parts).
--
-- A COMMIT that fails is taken to have kept nothing, and Redis runs the limiter's script as one step at
-- the gateway's time. The seconds that the metadata service computes from older_than_seconds wrap
-- around as in Go, without the rounding of a float64.
--
-- Not modelled: that a commit is kept whose answer is lost, the set-up of logs and metrics, that a
-- service ends where its database, store or broker cannot be reached, the library's reverse proxy, the
-- generated API documents, the Python services and the frontend.
pub mod Common
pub mod Http
pub mod Auth
pub mod Gateway
pub mod Metadata
pub mod Upload
pub mod Platform
pub mod Pkg
