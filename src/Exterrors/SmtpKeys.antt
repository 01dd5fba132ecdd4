-- ===== src/Exterrors/SmtpKeys.antt =====
-- The keys `smtp_code`, `smtp_enchcode` and `smtp_msg` of an `SMTPError`.
use sirr_mesh.Base.{
  ◌≡◌, refl, ◌∙◌, false, Option, none, some, [], ◌∷◌, Text, text, text_eq, Map, lookup, insert,
  lookup-insert,
}
use sirr_mesh.Exterrors.{Value, int, enhanced, str, Smtp, smtp_fields, put_text, put_reason}

lookup-put_text :
    (k s j : Text) (m : Map Value) → text_eq k j ≡ false → lookup j (put_text k s m) ≡ lookup j m
unfolding put_text
lookup-put_text k [] j m h = refl
lookup-put_text k (c ∷ cs) j m h = lookup-insert k j (str (c ∷ cs)) m ∙ rw h

lookup-put_reason :
    (r : Text) (inner : Option Text) (j : Text) (m : Map Value)
    → text_eq (text "reason") j ≡ false
    → lookup j (put_reason r inner m) ≡ lookup j m
unfolding put_reason
lookup-put_reason [] none j m h = refl
lookup-put_reason [] (some i) j m h = lookup-insert (text "reason") j (str i) m ∙ rw h
lookup-put_reason (c ∷ cs) inner j m h = lookup-insert (text "reason") j (str (c ∷ cs)) m ∙ rw h

-- The map without the optional keys.
abbrev base_fields : Smtp → Map Value
base_fields se = insert (text "smtp_msg") (str se.message) (
    insert (text "smtp_enchcode") (enhanced se.enhanced_code)
      (insert (text "smtp_code") (int se.code) se.misc))

lookup-smtp_fields :
    (se : Smtp) (inner : Option Text) (j : Text)
    → text_eq (text "reason") j ≡ false
    → text_eq (text "target") j ≡ false
    → text_eq (text "check") j ≡ false
    → lookup j (smtp_fields se inner) ≡ lookup j (base_fields se)
lookup-smtp_fields se inner j r t c =
    unfold smtp_fields in
    lookup-put_reason se.reason inner j _ r
    ∙ lookup-put_text (text "target") se.target_name j _ t
    ∙ lookup-put_text (text "check") se.check_name j (base_fields se) c

module _ (se : Smtp) (inner : Option Text) where
  pub lookup-smtp_code : lookup (text "smtp_code") (smtp_fields se inner) ≡ some (int se.code)
  unfolding text_eq
  lookup-smtp_code =
      lookup-smtp_fields se inner (text "smtp_code") refl refl refl ∙ simp lookup-insert

  pub lookup-smtp_enchcode :
      lookup (text "smtp_enchcode") (smtp_fields se inner) ≡ some (enhanced se.enhanced_code)
  unfolding text_eq
  lookup-smtp_enchcode =
      lookup-smtp_fields se inner (text "smtp_enchcode") refl refl refl ∙ simp lookup-insert

  pub lookup-smtp_msg : lookup (text "smtp_msg") (smtp_fields se inner) ≡ some (str se.message)
  unfolding text_eq
  lookup-smtp_msg =
      lookup-smtp_fields se inner (text "smtp_msg") refl refl refl ∙ simp lookup-insert
