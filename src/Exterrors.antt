-- ===== src/Exterrors.antt =====
-- framework/exterrors: errors with a chain of causes, temporary errors, fields and SMTP codes.
--
-- A Go `error` is one of the types below. Types of other packages are `foreign`: their message, and
-- what their `Temporary()` returns if they have that method. An `SMTPError` with `Err == nil` is
-- `smtp_leaf`, one with a cause is `smtp_error`.
pub mod Chain
pub mod Codes
pub mod SmtpKeys
mod Tests
use sirr_mesh.Base.{
  ℕ, ◌/◌, Bool, true, false, Option, none, some, [], ◌∷◌, ◌==◌, if◌then◌else◌, Text, text, Map,
  lookup, insert,
}

pub record EnhancedCode : Type 0 where
  pub major : ℕ
  pub subject : ℕ
  pub detail : ℕ

-- A value of the map that `Fields` returns.
pub data Value : Type 0 where
  nil : Value
  int : ℕ → Value
  enhanced : EnhancedCode → Value
  -- the type of go-smtp, which is another
  go_enhanced : EnhancedCode → Value
  str : Text → Value
  other : Text → Value

-- The fields of `SMTPError` but `Err`; `modifier_name` is in no map.
pub record Smtp : Type 0 where
  pub code : ℕ
  pub enhanced_code : EnhancedCode
  pub message : Text
  pub check_name : Text
  pub target_name : Text
  pub modifier_name : Text
  pub reason : Text
  pub misc : Map Value

pub data Error : Type 0 where
  plain : Text → Error
  foreign : Text → Option Bool → Error
  -- `*smtp.SMTPError` of go-smtp, with its `Temporary()`
  go_smtp : ℕ → EnhancedCode → Text → Option Bool → Error
  -- `fmt.Errorf("…%w", err)`
  wrapped : Text → Error → Error
  temporary_err : Error → Bool → Error
  fields_wrap : Error → Map Value → Error
  smtp_leaf : Smtp → Error
  smtp_error : Smtp → Error → Error

smtp_temporary : Smtp → Bool
smtp_temporary se = se.code / 100 == 4

-- `errors.As(err, &temp)` and then `temp.Temporary()`: of the outermost error that has the method.
temporary? : Error → Option Bool
unfolding smtp_temporary
temporary? (plain m) = none
temporary? (foreign m t) = t
temporary? (go_smtp c e m t) = t
temporary? (wrapped m err) = temporary? err
temporary? (temporary_err err t) = some t
temporary? (fields_wrap err f) = temporary? err
temporary? (smtp_leaf se) = some (smtp_temporary se)
temporary? (smtp_error se err) = some (smtp_temporary se)

or_default : Bool → Option Bool → Bool
or_default d none = d
or_default d (some t) = t

unfoldable pub is_temporary_or_unspec : Error → Bool
unfolding temporary? or_default
is_temporary_or_unspec err = or_default true (temporary? err)

unfoldable pub is_temporary : Error → Bool
unfolding temporary? or_default
is_temporary err = or_default false (temporary? err)

unfoldable pub with_temporary : Error → Bool → Error
with_temporary err temp = temporary_err err temp

unfoldable pub with_fields : Error → Map Value → Error
with_fields err f = fields_wrap err f

-- `SMTPError.Error`, and the messages of the other types.
unfoldable pub message_of : Error → Text
message_of (plain m) = m
message_of (foreign m t) = m
message_of (go_smtp c e m t) = m
message_of (wrapped m err) = m
message_of (temporary_err err t) = message_of err
message_of (fields_wrap err f) = message_of err
message_of (smtp_leaf se) = elim (se.reason) [ [] ↦ se.message | c ∷ cs ↦ c ∷ cs ]
message_of (smtp_error se err) =
    let inner = message_of err in elim (se.reason) [ [] ↦ inner | c ∷ cs ↦ c ∷ cs ]

-- `if s != "" { ctx[k] = s }`
put_text : Text → Text → Map Value → Map Value
put_text k [] m = m
put_text k (c ∷ cs) m = insert k (str (c ∷ cs)) m

-- The reason of `SMTPError.Fields`, given the message of `Err` if that is not nil.
put_reason : Text → Option Text → Map Value → Map Value
put_reason [] none m = m
put_reason [] (some inner) m = insert (text "reason") (str inner) m
put_reason (c ∷ cs) inner m = insert (text "reason") (str (c ∷ cs)) m

-- `SMTPError.Fields`
pub smtp_fields : Smtp → Option Text → Map Value
unfolding put_text put_reason insert
smtp_fields se inner =
    let ctx₁ = insert (text "smtp_code") (int se.code) se.misc in
    let ctx₂ = insert (text "smtp_enchcode") (enhanced se.enhanced_code) ctx₁ in
    let ctx₃ = insert (text "smtp_msg") (str se.message) ctx₂ in
    let ctx₄ = put_text (text "check") se.check_name ctx₃ in
    let ctx₅ = put_text (text "target") se.target_name ctx₄ in put_reason se.reason inner ctx₅

-- `fields[k] != nil`
abbrev pub is_set : Option Value → Bool
is_set none = false
is_set (some nil) = false
is_set (some _) = true

-- The inner loop of `Fields`: what an outer error has set is kept.
merge : Map Value → Map Value → Map Value
unfolding lookup insert
merge fields [] = fields
merge fields ((k, v) ∷ layer) =
    merge (if is_set (lookup k fields) then fields else insert k v fields) layer

-- The loop of `Fields` over the chain.
fields_from : Map Value → Error → Map Value
unfolding merge smtp_fields message_of
fields_from fields (plain m) = fields
fields_from fields (foreign m t) = fields
fields_from fields (go_smtp c e m t) = fields
fields_from fields (wrapped m err) = fields_from fields err
fields_from fields (temporary_err err t) = fields_from fields err
fields_from fields (fields_wrap err f) = fields_from (merge fields f) err
fields_from fields (smtp_leaf se) = merge fields (smtp_fields se none)
fields_from fields (smtp_error se err) =
    fields_from (merge fields (smtp_fields se (some (message_of err)))) err

unfoldable pub fields_of : Error → Map Value
unfolding fields_from
fields_of err = fields_from [] err

unfoldable pub smtp_code : Error → ℕ → ℕ → ℕ
unfolding is_temporary
smtp_code err temporary_code permanent_code =
    if is_temporary err then temporary_code else permanent_code

-- The assignment `code[0] = 5` follows the `if` and has no `else`.
unfoldable pub smtp_ench_code : Error → EnhancedCode → EnhancedCode
unfolding is_temporary
smtp_ench_code err code =
    let code₁ = if is_temporary err then record code { major = 4 } else code in
    record code₁ { major = 5 }
