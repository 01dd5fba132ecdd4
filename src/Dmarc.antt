-- ===== src/Dmarc.antt =====
-- internal/dmarc: the record of the From domain, the alignment of the results with it, and the
-- policy that the message gets.
pub mod Evaluate
pub mod Fetch
pub mod Apply
