-- ===== src/Address.antt =====
-- framework/address: e-mail addresses, their parts, quoting, validation and canonical forms.
pub mod Errors
pub mod Syntax
pub mod Norm
