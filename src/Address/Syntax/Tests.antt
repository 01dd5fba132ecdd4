-- ===== src/Address/Syntax/Tests.antt =====
-- Runs and witnesses.
use sirr_mesh.Base.{◌≡◌, refl, true, [], ◌∷◌, Text, text, ok, err}
use sirr_mesh.Address.Errors.{empty_domain, late_quote}
use sirr_mesh.Address.Syntax.{split, unquote_mbox, quote_mbox, is_ascii}
use sirr_mesh.Address.Syntax.Quoting.{unquote_mbox-quote_mbox}

split_postmaster : split (text "PostMaster") ≡ ok (text "PostMaster", [])
unfolding split
split_postmaster = refl

split_run : split (text "a@b@example.org") ≡ ok (text "a@b", text "example.org")
unfolding split
split_run = refl

split_no_domain : split (text "me@") ≡ err empty_domain
unfolding split
split_no_domain = refl

unquote_late : unquote_mbox (text "\"a\"b") ≡ err late_quote
unfolding unquote_mbox
unquote_late = refl

-- U+0080 passes for ASCII.
is_ascii_control : is_ascii (0x80 ∷ []) ≡ true
unfolding is_ascii
is_ascii_control = refl

abbrev spaced : Text
spaced = text "a \"b\"@c"

unquote_mbox-quote_mbox_example : unquote_mbox (quote_mbox spaced) ≡ ok spaced
unquote_mbox-quote_mbox_example = unquote_mbox-quote_mbox spaced (λ e. cc)
