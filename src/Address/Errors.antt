-- ===== src/Address/Errors.antt =====
-- The errors of framework/address, and those of the packages that it calls.
use sirr_mesh.Base.{Text}

pub data Err : Type 0 where
  missing_at empty_local_part empty_domain : Err
  late_quote bare_escape extra_at empty_mailbox : Err
  unicode_mailbox : Err
  -- `address: precis: %w`
  precis_failed : Err → Err
  -- an error of `idna` or of a PRECIS profile, by its message
  external : Text → Err
