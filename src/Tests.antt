-- ===== src/Tests.antt =====
-- Concrete boundaries, proxies and calls, and the theorems applied to them.
mod Data
mod Codec
mod Window
mod Local
mod Provided
mod Tokens
mod Guarded
mod Proxy
mod Threads
mod Server
mod Shared
mod Replicas
mod Adapters
mod Reach
mod Lines
mod Digest
