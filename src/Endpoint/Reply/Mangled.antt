-- ===== src/Endpoint/Reply/Mangled.antt =====
-- The reply to an annotated error.
use sirr_mesh.Base.{
  ◌≤◌, ◌≡◌, refl, sym, subst, append-nil, ap, ◌∙◌, Bool, true, false, none, [], ◌∷◌, ◌++◌, arith,
  All, Text, text,
}
use sirr_mesh.Exterrors.{Smtp, int, str, enhanced, smtp_leaf}
use sirr_mesh.Exterrors.Chain.{KeysDiffer}
use sirr_mesh.Exterrors.SmtpKeys.{lookup-smtp_code, lookup-smtp_enchcode, lookup-smtp_msg}
use sirr_mesh.Queue.Retry.{SmtpReply}
use sirr_mesh.Queue.Retry.Reply.{lookup_leaf}
use sirr_mesh.Endpoint.Reply.{
  Wire, mangled, annotated, id_note, wrap_err, code_field, enhanced_field, message_field, with_id,
  mangle,
}

abbrev pub Narrow : Text → Type 0
Narrow t = All (λ c. c ≤ 128) t

mangled-Narrow : (t : Text) → Narrow (mangled t)
unfolding mangled
mangled-Narrow [] = tt
mangled-Narrow (c ∷ t) = (ground arith, mangled-Narrow t)

mangled_same : (t : Text) → Narrow t → mangled t ≡ t
unfolding mangled
mangled_same [] h = refl
mangled_same (c ∷ t) h = rw (mangled_same t h.1) (ground (arith, h.0))

annotated-smtp_leaf :
    (w : Wire) (se : Smtp)
    → KeysDiffer se.misc
    → annotated w (smtp_leaf se)
      ≡ record { code = se.code; enhanced_code = se.enhanced_code; message = se.message }
unfolding annotated
annotated-smtp_leaf w se d = rw (
  lookup_leaf se (text "smtp_code") (int se.code) d refl (lookup-smtp_code se none),
  lookup_leaf se (text "smtp_enchcode") (enhanced se.enhanced_code) d refl
      (lookup-smtp_enchcode se none),
  lookup_leaf se (text "smtp_msg") (str se.message) d refl (lookup-smtp_msg se none),
  code_field,
  enhanced_field,
  message_field,
)

-- A reply with the code of another, and its text with the note, or that text mangled.
abbrev pub Tells : Bool → Text → SmtpReply → SmtpReply → Type 0
Tells utf8 id old new =
    (new.code ≡ old.code)
    × (new.enhanced_code ≡ old.enhanced_code)
    × (utf8 ≡ true → Narrow new.message)
    × (Narrow (old.message ++ id_note id) → new.message ≡ old.message ++ id_note id)

with_id-message : (id : Text) (r : SmtpReply) → (with_id id r).message ≡ r.message ++ id_note id
unfolding with_id
with_id-message [] r = sym (append-nil r.message)
with_id-message (c ∷ id) r = refl

mangle-Tells :
    (b : Bool) (id : Text) (old new : SmtpReply)
    → new.code ≡ old.code
    → new.enhanced_code ≡ old.enhanced_code
    → new.message ≡ old.message ++ id_note id
    → Tells b id old (mangle b new)
unfolding mangle
mangle-Tells true id old new code detail same = (
  code,
  detail,
  λ _. mangled-Narrow new.message,
  λ h. mangled_same new.message (subst Narrow (sym same) h) ∙ same,
)
mangle-Tells false id old new code detail same =
    (code, detail, λ e. absurd (ground (arith, e)), λ h. same)

with_id-code :
    (id : Text) (r : SmtpReply)
    → ((with_id id r).code ≡ r.code) × ((with_id id r).enhanced_code ≡ r.enhanced_code)
unfolding with_id
with_id-code [] r = (refl, refl)
with_id-code (c ∷ id) r = (refl, refl)

-- The reply to an `SMTPError` with no cause that is no deadline: its code and its enhanced code, and
-- its message with the ID of the message behind it; a client without SMTPUTF8 is sent no rune above
-- 128, and a text without such a rune as it is. The keys of the error's misc map do not clash.
pub wrap_err-smtp_leaf :
    (w : Wire) (id : Text) (mangle_utf8 : Bool) (se : Smtp)
    → KeysDiffer se.misc
    → w.is_deadline (smtp_leaf se) ≡ false
    → Tells mangle_utf8 id
        (record { code = se.code; enhanced_code = se.enhanced_code; message = se.message })
        (wrap_err w id mangle_utf8 (smtp_leaf se))
unfolding wrap_err
wrap_err-smtp_leaf w id mangle_utf8 se d h =
    let (code, detail) = with_id-code id (annotated w (smtp_leaf se)) in
    let same = annotated-smtp_leaf w se d in
    rw h (
      mangle-Tells mangle_utf8 id
        (record { code = se.code; enhanced_code = se.enhanced_code; message = se.message })
        (with_id id (annotated w (smtp_leaf se))) (code ∙ ap (λ r. r.code) same)
        (detail ∙ ap (λ r. r.enhanced_code) same)
        (with_id-message id (annotated w (smtp_leaf se)) ∙ ap (λ r. r.message ++ id_note id) same))
