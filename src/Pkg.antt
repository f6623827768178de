-- ===== src/Pkg.antt =====
-- pkg: what the Go services share besides the middleware of authentication.
pub mod Env
pub mod HttpServer
pub mod Logger
pub mod Json
mod Tests
