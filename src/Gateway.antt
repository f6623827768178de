-- ===== src/Gateway.antt =====
-- services/gateway: the edge service. Each child models one source file or a part of one.
pub mod VideoId
pub mod MetaCache
pub mod HlsToken
pub mod HlsAuth
pub mod ClientIp
pub mod Cors
pub mod RateLimit
pub mod Proxy
pub mod Docs
pub mod Router
pub mod Startup
pub mod Tests
