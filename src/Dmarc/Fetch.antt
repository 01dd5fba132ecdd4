-- ===== src/Dmarc/Fetch.antt =====
-- internal/dmarc/evaluate.go: `ExtractFromDomain` and `FetchRecord`.
--
-- The resolver and the parsers of addresses and of records are parameters. `Fail` has the errors
-- that the code tells apart; the text of the others is left out.
pub mod Found
mod Tests
use sirr_mesh.Base.{
  Bool, true, Option, none, some, List, [], ◌∷◌, ◌++◌, if◌then◌else◌, Text, text, has_prefix,
  Result, ok, err,
}
use sirr_mesh.Address.Errors.{Err}
use sirr_mesh.Address.Syntax.{split}
use sirr_mesh.Dmarc.Evaluate.{Domains, Record}

pub data Fail : Type 0 where
  -- `*net.DNSError`, with `IsNotFound` and `Temporary()`
  dns_error : Bool → Bool → Fail
  multiple_from missing_from malformed_from multiple_addresses missing_address : Fail
  from_syntax : Err → Fail
  no_org_domain bad_record other_fail : Fail

-- What `mail.ParseAddressList` makes of a field.
abbrev pub AddressList : Type 0
AddressList = Text → Option (List Text)

-- The loop over the From fields, with `firstFrom`.
first_from : Text → List Text → Result Fail Text
first_from [] [] = err missing_from
first_from (c ∷ cs) [] = ok (c ∷ cs)
first_from [] (v ∷ values) = first_from v values
first_from (c ∷ cs) (v ∷ values) = err multiple_from

from_split : Result Err (Text × Text) → Result Fail Text
from_split (ok (mailbox, domain)) = ok domain
from_split (err e) = err (from_syntax e)

from_address : Option (List Text) → Result Fail Text
unfolding from_split split
from_address none = err malformed_from
from_address (some []) = err missing_address
from_address (some (a ∷ b ∷ more)) = err multiple_addresses
from_address (some (a ∷ [])) = from_split (split a)

from_field : AddressList → Result Fail Text → Result Fail Text
unfolding from_address
from_field parse_list (ok field) = from_address (parse_list field)
from_field parse_list (err e) = err e

unfoldable pub extract_from_domain : AddressList → List Text → Result Fail Text
unfolding from_field first_from
extract_from_domain parse_list values = from_field parse_list (first_from [] values)

pub record Resolver : Type 0 where
  -- the records and the error of `LookupTXT`, of a name that ends in a dot
  pub lookup_txt : Text → List Text × Option Fail
  pub fqdn : Text → Text
  pub parse_record : Text → Option Record

-- `strings.HasPrefix(txt, "v=DMARC1")`
pub dmarc_only : List Text → List Text
unfolding has_prefix
dmarc_only [] = []
dmarc_only (t ∷ txts) =
    let rest = dmarc_only txts in if has_prefix (text "v=DMARC1") t then t ∷ rest else rest

parsed : Text → Option Record → Result Fail (Option (Text × Record))
parsed policy_domain none = err bad_record
parsed policy_domain (some rec) = ok (some (policy_domain, rec))

-- From `records := txts[:0]` on: the policy domain and the record, none for no record.
only_record : Resolver → Text → List Text → Result Fail (Option (Text × Record))
unfolding parsed
only_record r policy_domain (t ∷ []) = parsed policy_domain (r.parse_record t)
only_record r policy_domain _ = ok none

-- An error of `LookupTXT` that is not `IsNotFound` ends the search.
fatal : Option Fail → Option Fail
fatal none = none
fatal (some (dns_error true t)) = none
fatal (some e) = some e

at_org : Resolver → Text → List Text → Option Fail → Result Fail (Option (Text × Record))
unfolding only_record dmarc_only
at_org r org txts (some e) = err e
at_org r org txts none = only_record r org (dmarc_only txts)

abbrev pub record_name : Resolver → Text → Text
record_name r domain = r.fqdn (text "_dmarc." ++ domain)

try_org : Resolver → Option Text → Result Fail (Option (Text × Record))
unfolding at_org fatal
try_org r none = err no_org_domain
try_org r (some org) =
    let (txts, e) = r.lookup_txt (record_name r org) in at_org r org txts (fatal e)

at_from : Domains → Resolver → Text → List Text → Option Fail → Result Fail (Option (Text × Record))
unfolding try_org only_record dmarc_only
at_from p r from txts (some e) = err e
at_from p r from [] none = try_org r (p.org_domain from)
at_from p r from (t ∷ txts) none = only_record r from (dmarc_only (t ∷ txts))

unfoldable pub fetch_record : Domains → Resolver → Text → Result Fail (Option (Text × Record))
unfolding at_from fatal
fetch_record p r from =
    let (txts, e) = r.lookup_txt (record_name r from) in at_from p r from txts (fatal e)
