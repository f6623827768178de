-- ===== src/Metadata.antt =====
-- services/metadata: the videos, their tables in Postgres, and the HTTP API over them.
pub mod Model
pub mod Database
pub mod Repository
pub mod Handler
pub mod Storage
pub mod Server
pub mod Tests
