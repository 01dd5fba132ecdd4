-- ===== src/Modify/Replace.antt =====
-- internal/modify/replace_addr.go: the addresses of a message, replaced by a table.
--
-- The table is a parameter; its error and those of an address are the same type here. Strings that
-- join a text to an error are left out.
pub mod Valid
mod Tests
use sirr_mesh.Base.{
  Bool, true, false, not, ◌&&◌, Option, none, some, List, [], ◌∷◌, ◌++◌, if◌then◌else◌, Text, text,
  has_prefix, has_suffix, contains, Result, ok, err, ◌>>=◌,
}
use sirr_mesh.Address.Errors.{Err}
use sirr_mesh.Address.Syntax.{split}
use sirr_mesh.Address.Norm.{Packages, for_lookup, valid}
use sirr_mesh.Exterrors.{Error}

pub data Refusal : Type 0 where
  malformed : Err → Refusal
  table_failed : Error → Refusal
  invalid_replacement : Text → Refusal

abbrev pub MultiTable : Type 0
MultiTable = Text → Result Error (List Text)

-- The table's answer, with its error.
found_in : Result Error (List Text) → Result Refusal (List Text)
found_in (ok values) = ok values
found_in (err e) = err (table_failed e)

all_valid : Packages → List Text → List Text → Result Refusal (List Text)
unfolding valid
all_valid p out [] = ok out
all_valid p out (r ∷ rest) =
    let next = all_valid p out rest in if valid p r then next else err (invalid_replacement r)

-- A replacement of the local part: an address, or a local part for the same domain.
replace_one : Packages → Text → Text → Result Refusal Text
unfolding valid contains has_prefix has_suffix
replace_one p domain r =
    if contains (text "@") r && not (has_prefix (text "\"") r) && not (has_suffix (text "\"") r)
    then (if valid p r then ok r else err (invalid_replacement r))
    else ok (r ++ (b'@' ∷ domain))

replace_all : Packages → Text → List Text → Result Refusal (List Text)
unfolding replace_one
replace_all p domain [] = ok []
replace_all p domain (r ∷ rest) = do
  a ← replace_one p domain r
  more ← replace_all p domain rest
  ok (a ∷ more)

-- The values for the local part; with none, the address stays.
by_mailbox : Packages → Text → Text → List Text → Result Refusal (List Text)
unfolding replace_all
by_mailbox p val domain [] = ok (val ∷ [])
by_mailbox p val domain (r ∷ rest) = replace_all p domain (r ∷ rest)

by_parts : Packages → MultiTable → Text → Result Err (Text × Text) → Result Refusal (List Text)
unfolding by_mailbox found_in
by_parts p table val (err e) = ok (val ∷ [])
by_parts p table val (ok (mbox, domain)) = do
  values ← found_in (table mbox)
  by_mailbox p val domain values

by_address : Packages → MultiTable → Text → Text → List Text → Result Refusal (List Text)
unfolding by_parts all_valid split
by_address p table val norm [] = by_parts p table val (split norm)
by_address p table val norm (r ∷ rest) = all_valid p (r ∷ rest) (r ∷ rest)

normalized : Packages → MultiTable → Text → Text × Option Err → Result Refusal (List Text)
unfolding by_address found_in
normalized p table val (norm, some e) = err (malformed e)
normalized p table val (norm, none) = do
  values ← found_in (table norm)
  by_address p table val norm values

-- `replaceAddr.rewrite`
unfoldable pub rewrite : Packages → MultiTable → Text → Result Refusal (List Text)
unfolding normalized for_lookup
rewrite p table val = normalized p table val (for_lookup p val)

-- `results[0]`; none is the panic of an empty list.
first_result : Result Refusal (List Text) → Option (Result Refusal Text)
first_result (err e) = some (err e)
first_result (ok []) = none
first_result (ok (r ∷ rest)) = some (ok r)

-- `RewriteSender` and `RewriteRcpt`, with `replaceSender` and `replaceRcpt`.
unfoldable pub replace_sender : Packages → Bool → MultiTable → Text → Option (Result Refusal Text)
unfolding first_result rewrite
replace_sender p false table from = some (ok from)
replace_sender p true table from = first_result (rewrite p table from)

unfoldable pub replace_rcpt : Packages → Bool → MultiTable → Text → Result Refusal (List Text)
unfolding rewrite
replace_rcpt p false table rcpt = ok (rcpt ∷ [])
replace_rcpt p true table rcpt = rewrite p table rcpt
