-- ===== src/Checks/Results.antt =====
-- internal/msgpipeline/check_runner.go, `applyResults`: what the checks and DMARC lead to.
--
-- The formatting of the Authentication-Results field, of the results and the DMARC result added to
-- them, is a parameter, as are the text of a result's value and the place where a header takes a
-- field. A header is its raw fields.
pub mod Effect
pub mod Tests
use sirr_mesh.Base.{
  Bool, true, false, ◌||◌, Option, none, some, List, [], ◌∷◌, if◌then◌else◌, Text, text, Map,
}
use sirr_mesh.Exterrors.{Error, Value, str, smtp_leaf}
use sirr_mesh.Dmarc.Evaluate.{
  AuthResult, Policy, reject, quarantine, EvalResult, is_temp, AuthValue,
}
use sirr_mesh.Checks.Runner.{Merged}

pub record Formats : Type 0 where
  pub field : Text → List AuthResult → Option EvalResult → Text
  -- `header.Add` and `header.AddRaw`
  pub add_field : Text → List Text → List Text
  pub value_text : AuthValue → Text

-- `msgMeta.Quarantine` and the header.
pub record Message : Type 0 where
  pub quarantined : Bool
  pub header : List Text

misc_of : Formats → EvalResult → Map Value
misc_of f res =
    (text "reason", str res.reason)
    ∷ (text "dkim_res", str (f.value_text res.evidence.dkim_result.dkim_value))
    ∷ (text "dkim_domain", str res.evidence.dkim_result.dkim_domain)
    ∷ (text "spf_res", str (f.value_text res.evidence.spf_result.spf_value))
    ∷ (text "spf_from", str res.evidence.spf_result.spf_from)
    ∷ []

-- The error for the policy `reject`.
unfoldable pub dmarc_error : Formats → EvalResult → Error
unfolding misc_of
dmarc_error f res = smtp_leaf (record {
  code = if is_temp res.value then 450 else 550;
  enhanced_code = record { major = if is_temp res.value then 4 else 5; subject = 7; detail = 1 };
  message = text "DMARC check failed";
  check_name = text "dmarc";
  target_name = [];
  modifier_name = [];
  reason = [];
  misc = misc_of f res;
})

-- Are there results to write?
abbrev has_results : List AuthResult → Option EvalResult → Bool
has_results [] none = false
has_results _ _ = true

with_auth : Formats → Text → Merged → Option EvalResult → Message → Message
with_auth f host m d msg =
    if has_results m.merged_auth d
    then record msg { header = f.add_field (f.field host m.merged_auth d) msg.header }
    else msg

-- The loop over the fields that the checks add.
add_raw : Formats → List Text → Message → Message
add_raw f [] msg = msg
add_raw f (field ∷ fields) msg =
    add_raw f fields (record msg { header = f.add_field field msg.header })

-- Behind the DMARC policy.
finish_results : Formats → Text → Merged → Option EvalResult → Message → Message
unfolding with_auth add_raw
finish_results f host m d msg = add_raw f m.merged_header (with_auth f host m d msg)

with_policy : Formats → Text → Merged → EvalResult → Policy → Message → Message × Option Error
unfolding finish_results dmarc_error
with_policy f host m res reject msg = (msg, some (dmarc_error f res))
with_policy f host m res quarantine msg =
    (finish_results f host m (some res) (record msg { quarantined = true }), none)
with_policy f host m res _ msg = (finish_results f host m (some res) msg, none)

dmarc_step :
    Formats → Text → Merged → Option (EvalResult × Policy) → Message → Message × Option Error
unfolding with_policy finish_results
dmarc_step f host m none msg = (finish_results f host m none msg, none)
dmarc_step f host m (some (res, policy)) msg = with_policy f host m res policy msg

-- `applyResults`, of the result of the DMARC check if it is done.
unfoldable pub apply_results :
    Formats → Text → Merged → Option (EvalResult × Policy) → Message → Message × Option Error
unfolding dmarc_step
apply_results f host m dmarc msg =
    dmarc_step f host m dmarc (record msg { quarantined = m.merged_quarantine || msg.quarantined })
