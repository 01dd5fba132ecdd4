-- ===== src/Dmarc/Evaluate.antt =====
-- internal/dmarc/evaluate.go: `isAligned` and `EvaluateAlignment`.
--
-- The public suffix list and `strings.EqualFold` are parameters (record Domains). Of the results of
-- the authres package, the fields that the code reads are kept; `unset` is the empty string.
pub mod Verdict
pub mod Tests
use sirr_mesh.Base.{
  ℕ, Bool, true, false, not, ◌&&◌, ◌||◌, Option, some, List, [], ◌∷◌, if◌then◌else◌, Text, text,
}

-- `authres.ResultValue`
pub data AuthValue : Type 0 where
  unset no_result pass fail temp_error perm_error : AuthValue
  other_value : Text → AuthValue

pub record Dkim : Type 0 where
  pub dkim_value : AuthValue
  pub dkim_domain : Text

pub record Spf : Type 0 where
  pub spf_value : AuthValue
  pub spf_from : Text
  pub spf_helo : Text

-- `authres.Result`
pub data AuthResult : Type 0 where
  dkim : Dkim → AuthResult
  spf : Spf → AuthResult
  other_result : AuthResult

-- `dmarc.AlignmentMode`
pub data Mode : Type 0 where
  strict relaxed : Mode

-- `dmarc.Policy`
pub data Policy : Type 0 where
  unset_policy no_policy quarantine reject : Policy

pub record Record : Type 0 where
  pub dkim_alignment : Mode
  pub spf_alignment : Mode
  pub policy : Policy
  pub subdomain_policy : Policy
  pub percent : Option ℕ

pub record Domains : Type 0 where
  pub equal_fold : Text → Text → Bool
  pub public_suffix : Text → Text
  -- `publicsuffix.EffectiveTLDPlusOne`, none for an error
  pub org_domain : Text → Option Text

same_org : Domains → Option Text → Option Text → Bool
same_org p (some a) (some b) = p.equal_fold a b
same_org p _ _ = false

unfoldable pub is_aligned : Domains → Text → Text → Mode → Bool
unfolding same_org
is_aligned p from auth strict = p.equal_fold from auth
is_aligned p from auth relaxed =
    if p.equal_fold from (p.public_suffix from)
    then p.equal_fold from auth
    else same_org p (p.org_domain from) (p.org_domain auth)

-- The variables of the loop of `EvaluateAlignment`.
pub record Seen : Type 0 where
  pub spf_aligned : Bool
  pub spf_result : Spf
  pub dkim_aligned : Bool
  pub dkim_result : Dkim
  pub dkim_present : Bool
  pub dkim_temp_fail : Bool

abbrev pub is_unset : AuthValue → Bool
is_unset unset = true
is_unset _ = false

abbrev pub is_pass : AuthValue → Bool
is_pass pass = true
is_pass _ = false

abbrev pub is_temp : AuthValue → Bool
is_temp temp_error = true
is_temp _ = false

-- A DKIM result, with what `isAligned` says of it.
see_dkim : Dkim → Bool → Seen → Seen
see_dkim d aligned s = record s {
  dkim_present = true;
  dkim_result = if aligned || is_unset s.dkim_result.dkim_value then d else s.dkim_result;
  dkim_aligned = s.dkim_aligned || (aligned && is_pass d.dkim_value);
  dkim_temp_fail = s.dkim_temp_fail || (aligned && is_temp d.dkim_value);
}

see_spf : Spf → Bool → Seen → Seen
see_spf r aligned s = record s {
  spf_result = r;
  spf_aligned = s.spf_aligned || (aligned && is_pass r.spf_value);
}

-- The MAIL FROM domain, or the HELO name if there is none.
abbrev pub spf_domain : Text → Text → Text
spf_domain [] helo = helo
spf_domain from helo = from

see : Domains → Text → Record → Seen → AuthResult → Seen
unfolding see_dkim see_spf is_aligned
see p from rec s (dkim d) = see_dkim d (is_aligned p from d.dkim_domain rec.dkim_alignment) s
see p from rec s (spf r) =
    see_spf r (is_aligned p from (spf_domain r.spf_from r.spf_helo) rec.spf_alignment) s
see p from rec s other_result = s

see_all : Domains → Text → Record → Seen → List AuthResult → Seen
unfolding see
see_all p from rec s [] = s
see_all p from rec s (r ∷ results) = see_all p from rec (see p from rec s r) results

abbrev no_spf : Spf
no_spf = record { spf_value = unset; spf_from = []; spf_helo = [] }

abbrev no_dkim : Dkim
no_dkim = record { dkim_value = unset; dkim_domain = [] }

abbrev pub seen_nothing : Seen
seen_nothing = record {
  spf_aligned = false;
  spf_result = no_spf;
  dkim_aligned = false;
  dkim_result = no_dkim;
  dkim_present = false;
  dkim_temp_fail = false;
}

-- `EvalResult`, with the value, the reason and the domain of its `Authres`.
pub record EvalResult : Type 0 where
  pub value : AuthValue
  pub reason : Text
  pub from_domain : Text
  pub evidence : Seen

-- The tests behind the loop, in their order.
conclusion : Seen → AuthValue × Text
conclusion s =
    if not s.dkim_present || is_unset s.spf_result.spf_value
    then (no_result, text "Not enough information (required checks are disabled)")
    else if s.dkim_temp_fail && not s.dkim_aligned && not s.spf_aligned
    then (temp_error, text "DKIM authentication temp error")
    else if not s.dkim_aligned && is_temp s.spf_result.spf_value
    then (temp_error, text "SPF authentication temp error")
    else if s.dkim_aligned || s.spf_aligned
    then (pass, [])
    else (fail, text "No aligned identifiers")

unfoldable pub evaluate : Domains → Text → Record → List AuthResult → EvalResult
unfolding see_all conclusion
evaluate p from rec results =
    let s = see_all p from rec seen_nothing results in
    let (v, why) = conclusion s in
    record { value = v; reason = why; from_domain = from; evidence = s }
