-- ===== src/Dmarc/Apply.antt =====
-- internal/dmarc/verifier.go: `FetchRecord` and `Apply` of the Verifier, one after the other.
--
-- `draw` is the number from 0 to 99 that `rand.Int31n(100)` gives.
pub mod Closed
mod Tests
use sirr_mesh.Base.{
  ℕ, Bool, true, false, not, ◌&&◌, Option, none, some, List, [], if◌then◌else◌, ltb, Text, text,
  Result, ok, err,
}
use sirr_mesh.Dmarc.Evaluate.{
  AuthValue, no_result, pass, temp_error, perm_error, Policy, unset_policy, no_policy, reject,
  Record, Domains, AuthResult, EvalResult, seen_nothing, evaluate,
}
use sirr_mesh.Dmarc.Fetch.{
  Fail, dns_error, AddressList, Resolver, extract_from_domain, fetch_record,
}

-- `verifyData`: the From domain, and the policy domain with the record, if there is one.
pub record VerifyData : Type 0 where
  pub from_domain : Text
  pub found : Result Fail (Option (Text × Record))

fetched : Domains → Resolver → Result Fail Text → VerifyData
fetched p r (err e) = record { from_domain = []; found = err e }
fetched p r (ok from) = record { from_domain = from; found = fetch_record p r from }

-- `Verifier.FetchRecord`, of the values of the From fields.
unfoldable pub fetch_domain : Domains → Resolver → AddressList → List Text → VerifyData
unfolding fetched
fetch_domain p r parse_list values = fetched p r (extract_from_domain parse_list values)

-- An `EvalResult` with no more than its `Authres`.
plain_result : AuthValue → Text → Text → EvalResult
plain_result v why from = record {
  value = v;
  reason = why;
  from_domain = from;
  evidence = seen_nothing;
}

-- `recordErr` is not nil. The text of the error is left out of the reason.
failed : Text → Fail → EvalResult × Policy
unfolding plain_result
failed from (dns_error n true) =
    (plain_result temp_error (text "Policy lookup failed: ") from, reject)
failed from e = (plain_result perm_error (text "Policy lookup failed: ") from, no_policy)

-- Is the message spared by the `pct` key?
pub spared : Option ℕ → ℕ → Bool
spared none draw = false
spared (some percent) draw = ltb percent draw

abbrev pub is_unset_policy : Policy → Bool
is_unset_policy unset_policy = true
is_unset_policy _ = false

-- The policy for a message that fails.
pub policy_for : Domains → Text → Text → Record → Policy
policy_for p from domain rec =
    if not (p.equal_fold domain from) && not (is_unset_policy rec.subdomain_policy)
    then rec.subdomain_policy
    else rec.policy

abbrev pub no_action : AuthValue → Bool
no_action pass = true
no_action no_result = true
no_action _ = false

judge : Domains → Text → Text → Record → ℕ → EvalResult → EvalResult × Policy
unfolding policy_for spared
judge p from domain rec draw result =
    if no_action result.value
    then (result, no_policy)
    else if spared rec.percent draw
    then (result, no_policy)
    else (result, policy_for p from domain rec)

act :
    Domains
    → Text
    → ℕ
    → List AuthResult
    → Result Fail (Option (Text × Record))
    → EvalResult × Policy
unfolding judge failed plain_result
act p from draw results (err e) = failed from e
act p from draw results (ok none) = (plain_result no_result [] from, no_policy)
act p from draw results (ok (some (domain, rec))) =
    judge p from domain rec draw (evaluate p from rec results)

unfoldable pub apply : Domains → VerifyData → ℕ → List AuthResult → EvalResult × Policy
unfolding act
apply p fetch draw results = act p fetch.from_domain draw results fetch.found
