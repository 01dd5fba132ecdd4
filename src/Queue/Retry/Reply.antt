-- ===== src/Queue/Retry/Reply.antt =====
-- The reply that is kept for the report.
use sirr_mesh.Base.{◌≡◌, refl, ◌∙◌, Option, none, some, Text, ap, text, lookup}
use sirr_mesh.Exterrors.{Value, nil, int, enhanced, str, Smtp, smtp_leaf, smtp_fields, fields_of}
use sirr_mesh.Exterrors.Chain.{KeysDiffer, value?, lookup-fields_of}
use sirr_mesh.Exterrors.SmtpKeys.{lookup-smtp_code, lookup-smtp_enchcode, lookup-smtp_msg}
use sirr_mesh.Queue.Retry.{with_code, with_enhanced, with_message, default_reply, to_smtp_err}

-- A value that is set is the value.
some_of_value? : (o : Option Value) {v : Value} → value? o ≡ some v → o ≡ some v
some_of_value? none h = h
some_of_value? (some nil) h = cc
some_of_value? (some (int c)) h = h
some_of_value? (some _) h = h

pub lookup_leaf :
    (se : Smtp) (k : Text) (v : Value)
    → KeysDiffer se.misc
    → value? (some v) ≡ some v
    → lookup k (smtp_fields se none) ≡ some v
    → lookup k (fields_of (smtp_leaf se)) ≡ some v
lookup_leaf se k v d set h =
    some_of_value? (lookup k (fields_of (smtp_leaf se))) {v = v}
      (lookup-fields_of k (smtp_leaf se) d ∙ ap value? h ∙ set)

-- An `SMTPError` with no cause keeps its code and its message in the reply stored for the report,
-- and loses its enhanced code: that is 4.0.0 for a temporary error and 5.0.0 for any other.
pub to_smtp_err-smtp_leaf :
    (se : Smtp)
    → KeysDiffer se.misc
    → to_smtp_err (smtp_leaf se) ≡ record {
      code = se.code;
      enhanced_code = (default_reply (smtp_leaf se)).enhanced_code;
      message = se.message;
    }
unfolding to_smtp_err
to_smtp_err-smtp_leaf se d = rw (
  lookup_leaf se (text "smtp_code") (int se.code) d refl (lookup-smtp_code se none),
  lookup_leaf se (text "smtp_enchcode") (enhanced se.enhanced_code) d refl
      (lookup-smtp_enchcode se none),
  lookup_leaf se (text "smtp_msg") (str se.message) d refl (lookup-smtp_msg se none),
  with_code,
  with_enhanced,
  with_message,
)
