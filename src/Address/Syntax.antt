-- ===== src/Address/Syntax.antt =====
-- framework/address/split.go and the checks of validation.go that call no other package: the two
-- parts of an address, quoting of the local part. A string is the list of its code points.
pub mod Splitting
pub mod Quoting
mod Tests
use sirr_mesh.Base.{
  ℕ, ◌+◌, Bool, true, false, not, ◌&&◌, ◌||◌, [], ◌∷◌, ◌++◌, none, some, ltb, leb, ◌==◌,
  if◌then◌else◌, Text, text, has_prefix, has_suffix, split_last, equal_fold_ascii, Result, ok, err,
  ◌>>=◌, all,
}
use sirr_mesh.Address.Errors.{
  Err, missing_at, empty_local_part, empty_domain, late_quote, bare_escape, extra_at, empty_mailbox,
}

abbrev postmaster : Text
postmaster = text "postmaster"

-- `mailbox == ""`, then `domain == ""`.
parts : Text → Text → Result Err (Text × Text)
parts [] domain = err empty_local_part
parts mailbox [] = err empty_domain
parts mailbox domain = ok (mailbox, domain)

unfoldable pub split : Text → Result Err (Text × Text)
unfolding parts split_last equal_fold_ascii
split addr =
    if equal_fold_ascii addr postmaster then ok (addr, []) else elim (split_last b'@' addr) [
      | none ↦ err missing_at
      | some (mailbox, domain) ↦ parts mailbox domain
    ]

-- The variables of the loop of `UnquoteMbox`.
record Unquote : Type 0 where
  quoted : Bool
  escaped : Bool
  terminated : Bool
  out : Text

-- One round: the switch falls through to the last two lines unless it continues.
unquote_rune : Unquote → ℕ → Result Err Unquote
unquote_rune u ch =
    let write = ok (record u { escaped = false; out = u.out ++ (ch ∷ []) }) in
    if u.terminated
    then err late_quote
    else if ch == b'"' && not u.escaped
    then ok (record u { quoted = not u.quoted; terminated = u.quoted })
    else if ch == b'\\' && not u.escaped
    then (if not u.quoted then err bare_escape else ok (record u { escaped = true }))
    else if ch == b'@' && not u.quoted
    then err extra_at
    else write

unquote_runes : Unquote → Text → Result Err Unquote
unfolding unquote_rune
unquote_runes u [] = ok u
unquote_runes u (c ∷ cs) = do u' ← unquote_rune u c; unquote_runes u' cs

nonempty : Text → Result Err Text
nonempty [] = err empty_mailbox
nonempty s = ok s

abbrev unquote_start : Unquote
unquote_start = record { quoted = false; escaped = false; terminated = false; out = [] }

unfoldable pub unquote_mbox : Text → Result Err Text
unfolding unquote_runes nonempty
unquote_mbox mbox = do u ← unquote_runes unquote_start mbox; nonempty u.out

-- The keys of `mboxSpecial`.
mbox_special : ℕ → Bool
mbox_special c =
    c == b'('
    || c == b')'
    || c == b'<'
    || c == b'>'
    || c == b'['
    || c == b']'
    || c == b':'
    || c == b';'
    || c == b'@'
    || c == b'\\'
    || c == b','
    || c == b'"'
    || c == b' '

-- What the loop of `QuoteMbox` writes for one rune.
quote_rune : ℕ → Text
unfolding mbox_special
quote_rune ch = if ch == b'\\' || ch == b'"' then b'\\' ∷ ch ∷ [] else ch ∷ []

-- The loop: the builder and `quoted`.
quote_runes : Text → Bool → Text → Text × Bool
unfolding quote_rune
quote_runes esc quoted [] = (esc, quoted)
quote_runes esc quoted (ch ∷ cs) =
    quote_runes (if mbox_special ch then esc ++ quote_rune ch else esc ++ (ch ∷ []))
      (quoted || mbox_special ch) cs

unfoldable pub quote_mbox : Text → Text
unfolding quote_runes
quote_mbox mbox =
    let (esc, quoted) = quote_runes [] false mbox in
    if quoted then b'"' ∷ (esc ++ (b'"' ∷ [])) else mbox

-- The keys of `validGraphic`.
valid_graphic : ℕ → Bool
valid_graphic c =
    c == b'!'
    || c == b'#'
    || c == b'$'
    || c == b'%'
    || c == b'&'
    || c == 0x27
    || c == b'*'
    || c == b'+'
    || c == b'-'
    || c == b'/'
    || c == b'='
    || c == b'?'
    || c == b'^'
    || c == b'_'
    || c == b'`'
    || c == b'{'
    || c == b'|'
    || c == b'}'
    || c == b'~'
    || c == b'.'

-- A rune that is allowed inside quotes: no control character.
pub valid_quoted_rune : ℕ → Bool
valid_quoted_rune ch = not (ltb ch b' ' || ch == 0x7f)

valid_atom_rune : ℕ → Bool
unfolding valid_graphic
valid_atom_rune ch =
    valid_graphic ch
    || leb b'0' ch && leb ch b'9'
    || leb b'A' ch && leb ch b'Z'
    || leb b'a' ch && leb ch b'z'
    || ltb 0x7f ch

valid_unquoted : Result Err Text → Bool
unfolding valid_quoted_rune
valid_unquoted (err e) = false
valid_unquoted (ok raw) = all valid_quoted_rune raw

unfoldable pub valid_mailbox_name : Text → Bool
unfolding valid_atom_rune valid_unquoted unquote_mbox has_prefix
valid_mailbox_name mbox =
    if has_prefix (b'"' ∷ []) mbox
    then valid_unquoted (unquote_mbox mbox)
    else all valid_atom_rune mbox

-- `ch > utf8.RuneSelf`, where `utf8.RuneSelf` is 0x80.
unfoldable pub is_ascii : Text → Bool
is_ascii = all (λ ch. not (ltb 0x80 ch))

unfoldable pub fqdn_domain : Text → Text
unfolding has_suffix
fqdn_domain addr = if has_suffix (b'.' ∷ []) addr then addr else addr ++ (b'.' ∷ [])
