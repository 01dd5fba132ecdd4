-- ===== src/Modify.antt =====
-- internal/modify: the modifiers of a message, their group, and the replacement of addresses.
pub mod Group
pub mod Replace
