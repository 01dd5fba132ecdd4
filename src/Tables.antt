-- ===== src/Tables.antt =====
-- Lookup tables, internal/table/chain.go and internal/authz/lookup.go: a table is a parameter, of one
-- value for a key or of several.
pub mod Chain
pub mod Authz
