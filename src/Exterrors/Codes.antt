-- ===== src/Exterrors/Codes.antt =====
-- `SMTPCode` and `SMTPEnchCode` on temporary errors.
use sirr_mesh.Base.{ℕ, ◌≡◌, true, arith}
use sirr_mesh.Exterrors.{Error, EnhancedCode, is_temporary, smtp_code, smtp_ench_code}

-- For a temporary error `SMTPCode` takes the temporary code, and yet `SMTPEnchCode` gives class 5,
-- the permanent one, with the subject and the detail of its argument.
temporary_codes_disagree :
    (err : Error) (temporary permanent : ℕ) (code : EnhancedCode)
    → is_temporary err ≡ true
    → (smtp_code err temporary permanent ≡ temporary)
      × (smtp_ench_code err code ≡ record code { major = 5 })
unfolding smtp_code smtp_ench_code
temporary_codes_disagree err temporary permanent code h = ground arith
