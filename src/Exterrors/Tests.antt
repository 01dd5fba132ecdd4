-- ===== src/Exterrors/Tests.antt =====
-- Witnesses.
use sirr_mesh.Base.{◌≡◌, refl, [], ◌∷◌, text, text_eq}
use sirr_mesh.Exterrors.{EnhancedCode, str, Smtp, Error, plain, fields_wrap, smtp_error, fields_of}
use sirr_mesh.Exterrors.Chain.{IsGoError, value?, field?, lookup-fields_of}
use sirr_mesh.Base.{lookup}

abbrev class₄ : EnhancedCode
class₄ = record { major = 4; subject = 7; detail = 0 }

abbrev greylisted : Smtp
greylisted = record {
  code = 451;
  enhanced_code = class₄;
  message = text "try again";
  check_name = text "grey";
  target_name = [];
  modifier_name = [];
  reason = [];
  misc = (text "smtp_msg", str (text "shadowed")) ∷ [];
}

abbrev sample : Error
sample =
    fields_wrap (smtp_error greylisted (plain (text "io")))
      ((text "effective_rcpt", str (text "a@b")) ∷ (text "check", str (text "outer")) ∷ [])

sample-IsGoError : IsGoError sample
unfolding text_eq
sample-IsGoError = (((refl, tt), (tt, tt)), ((tt, tt), tt))

lookup-fields_of_example :
    value? (lookup (text "check") (fields_of sample)) ≡ field? (text "check") sample
lookup-fields_of_example = lookup-fields_of (text "check") sample sample-IsGoError
