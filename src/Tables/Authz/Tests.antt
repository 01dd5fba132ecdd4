-- ===== src/Tables/Authz/Tests.antt =====
-- A user with one domain, and two addresses of which one is in it.
use sirr_mesh.Base.{
  ◌≡◌, refl, true, false, none, some, List, [], ◌∷◌, Text, text, text_eq, split_last,
  equal_fold_ascii, member, if◌then◌else◌, ok,
}
use sirr_mesh.Address.Syntax.{split}
use sirr_mesh.Tables.Chain.{Table, single, values_of}
use sirr_mesh.Tables.Authz.{authorize_email_use}
use sirr_mesh.Tables.Authz.Permission.{Permits, authorize_email_use-Permits}

abbrev domains : Table Text
domains = single (λ u. if text_eq u (text "me") then ok (some (text "a.org")) else ok none)

abbrev addrs : List Text
addrs = text "me@b.org" ∷ text "me@a.org" ∷ []

domain_of_me : values_of domains (text "me") ≡ ok (text "a.org" ∷ [])
unfolding values_of text_eq
domain_of_me = refl

me_allowed : authorize_email_use (text "me") addrs domains ≡ ok true
unfolding authorize_email_use values_of text_eq split equal_fold_ascii split_last
me_allowed = refl

you_refused : authorize_email_use (text "you") addrs domains ≡ ok false
unfolding authorize_email_use values_of text_eq split equal_fold_ascii split_last
you_refused = refl

authorize_email_use-Permits_example :
    (addr : Text) × (member addr addrs ≡ true) × Permits (text "a.org" ∷ []) addr
authorize_email_use-Permits_example =
    authorize_email_use-Permits (text "me") addrs (text "a.org" ∷ []) domains domain_of_me
      me_allowed
