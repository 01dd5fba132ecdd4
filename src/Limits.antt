-- ===== src/Limits.antt =====
-- internal/limits: limiters, sets of them by key, and the group that the endpoints use.
pub mod Limiters
pub mod Buckets
pub mod Group
