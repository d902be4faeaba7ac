-- ===== src/Redis.antt =====
-- src/toolboundary/redis_backend.py: the rate limiter and the token store that replicas share.
pub mod Server
pub mod Key
pub mod Connection
pub mod Limiter
pub mod TokenStore
