-- ===== src/Http.antt =====
-- http/client.py: the primitives shared by the source adapters.
pub mod RateLimiter
pub mod Retry
