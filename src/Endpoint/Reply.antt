-- ===== src/Endpoint/Reply.antt =====
-- internal/endpoint/smtp/session.go: `wrapErr`, the reply that an error becomes.
--
-- `Wire` is what other packages define: whether an error is `context.DeadlineExceeded`, go-smtp's
-- `EnhancedCodeNotSet` and its reply `ErrAuthRequired`.
pub mod Mangled
mod Tests
use sirr_mesh.Base.{
  Bool, true, false, Option, some, [], ◌∷◌, ◌++◌, if◌then◌else◌, ltb, Text, text, lookup,
}
use sirr_mesh.Exterrors.{
  Error, EnhancedCode, Value, int, str, enhanced, go_smtp, is_temporary, fields_of,
}
use sirr_mesh.Queue.Retry.{SmtpReply}

-- `b.WriteRune('?')` for a rune above 128.
unfoldable pub mangled : Text → Text
mangled [] = []
mangled (ch ∷ msg) = (if ltb 128 ch then b'?' else ch) ∷ mangled msg

pub record Wire : Type 0 where
  pub is_deadline : Error → Bool
  pub not_set : EnhancedCode
  pub auth_required : SmtpReply

base_reply : Wire → Error → SmtpReply
unfolding is_temporary
base_reply w err = record {
  code = if is_temporary err then 451 else 554;
  enhanced_code = w.not_set;
  message = text "Internal server error";
}

-- The fields of the error, if they have the type asserted.
code_field : Option Value → SmtpReply → SmtpReply
code_field (some (int c)) res = record res { code = c }
code_field _ res = res

enhanced_field : Option Value → SmtpReply → SmtpReply
enhanced_field (some (enhanced c)) res = record res { enhanced_code = c }
enhanced_field _ res = res

message_field : Option Value → SmtpReply → SmtpReply
message_field (some (str m)) res = record res { message = m }
message_field _ res = res

-- `err.(*smtp.SMTPError)`, of the outermost error.
go_reply : Error → SmtpReply → SmtpReply
go_reply (go_smtp c e m t) res = record { code = c; enhanced_code = e; message = m }
go_reply _ res = res

abbrev pub id_note : Text → Text
id_note [] = []
id_note (c ∷ id) = text " (msg ID = " ++ (c ∷ id) ++ text ")"

with_id : Text → SmtpReply → SmtpReply
with_id [] res = res
with_id (c ∷ id) res = record res { message = res.message ++ id_note (c ∷ id) }

mangle : Bool → SmtpReply → SmtpReply
unfolding mangled
mangle true res = record res { message = mangled res.message }
mangle false res = res

-- The reply that the fields of the error chain give.
unfoldable pub annotated : Wire → Error → SmtpReply
unfolding base_reply code_field enhanced_field message_field go_reply
annotated w err = go_reply err (
    message_field (lookup (text "smtp_msg") (fields_of err)) (
      enhanced_field (lookup (text "smtp_enchcode") (fields_of err))
        (code_field (lookup (text "smtp_code") (fields_of err)) (base_reply w err))))

abbrev pub busy : SmtpReply
busy = record {
  code = 451;
  enhanced_code = record { major = 4; subject = 4; detail = 5 };
  message = text "High load, try again later";
}

-- `wrapErr`, of an error that is not nil.
unfoldable pub wrap_err : Wire → Text → Bool → Error → SmtpReply
unfolding annotated with_id mangle
wrap_err w id mangle_utf8 err =
    if w.is_deadline err then busy else mangle mangle_utf8 (with_id id (annotated w err))
