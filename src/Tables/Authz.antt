-- ===== src/Tables/Authz.antt =====
-- internal/authz/lookup.go: may the user send from one of the addresses?
pub mod Permission
mod Tests
use sirr_mesh.Base.{Bool, true, false, ◌||◌, List, [], ◌∷◌, Text, text, text_eq, Result, ok, err}
use sirr_mesh.Address.Errors.{Err}
use sirr_mesh.Address.Syntax.{split}
use sirr_mesh.Tables.Chain.{Table, values_of}

-- An error of the table, or of an address.
pub data Fail (E : Type 0) : Type 0 where
  table_failed : E → Fail E
  bad_address : Err → Fail E

-- `ent == domain || ent == "*" || ent == addr`
pub permits : Text → Text → Text → Bool
permits ent domain addr = text_eq ent domain || text_eq ent (text "*") || text_eq ent addr

-- The inner loop.
pub some_permits : List Text → Text → Text → Bool
unfolding permits
some_permits [] domain addr = false
some_permits (ent ∷ valid) domain addr = permits ent domain addr || some_permits valid domain addr

module _ {E : Type 0} where
  or_next : Bool → Result (Fail E) Bool → Result (Fail E) Bool
  or_next true next = ok true
  or_next false next = next

  for_parts :
      List Text → Text → Result Err (Text × Text) → Result (Fail E) Bool → Result (Fail E) Bool
  unfolding or_next some_permits
  for_parts valid addr (err e) next = err (bad_address e)
  for_parts valid addr (ok (mailbox, domain)) next = or_next (some_permits valid domain addr) next

  -- The loop over the addresses.
  check_addrs : List Text → List Text → Result (Fail E) Bool
  unfolding for_parts split
  check_addrs valid [] = ok false
  check_addrs valid (addr ∷ addrs) = for_parts valid addr (split addr) (check_addrs valid addrs)

  with_valid : List Text → Result E (List Text) → Result (Fail E) Bool
  unfolding check_addrs
  with_valid addrs (err e) = err (table_failed e)
  with_valid addrs (ok valid) = check_addrs valid addrs

  -- `AuthorizeEmailUse`
  unfoldable pub authorize_email_use : Text → List Text → Table E → Result (Fail E) Bool
  unfolding with_valid check_addrs for_parts or_next some_permits permits values_of
  authorize_email_use username addrs mapping = with_valid addrs (values_of mapping username)
