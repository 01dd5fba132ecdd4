-- ===== src/Modify/Replace/Tests.antt =====
-- A table with a local part.
use sirr_mesh.Base.{◌≡◌, refl, [], ◌∷◌, text, text_eq, if◌then◌else◌, ok, err, has_prefix, contains}
use sirr_mesh.Address.Syntax.{split}
use sirr_mesh.Address.Norm.{for_lookup, valid}
use sirr_mesh.Address.Norm.Tests.{ascii}
use sirr_mesh.Modify.Replace.{invalid_replacement, MultiTable, rewrite}

abbrev local_parts : MultiTable
local_parts mbox =
    if text_eq mbox (text "info")
    then ok (text "a b" ∷ [])
    else if text_eq mbox (text "postmaster")
    then ok (text "root" ∷ [])
    else ok []

-- The joined address is not validated: there is a space in its local part.
spaced : rewrite ascii local_parts (text "info@a.org") ≡ ok (text "a b@a.org" ∷ [])
unfolding rewrite for_lookup split text_eq contains has_prefix
spaced = refl

-- `postmaster` is looked up as a whole address, and its replacement has to be one.
postmaster_refused :
    rewrite ascii local_parts (text "postmaster") ≡ err (invalid_replacement (text "root"))
unfolding rewrite for_lookup split text_eq contains has_prefix valid
postmaster_refused = refl
