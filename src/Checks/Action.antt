-- ===== src/Checks/Action.antt =====
-- framework/config/module/check_action.go: what a failed check does to the message.
use sirr_mesh.Base.{Bool, false, ◌||◌, Option, none, some, List, [], Text}
use sirr_mesh.Exterrors.{Error, smtp_error, Smtp}
use sirr_mesh.Dmarc.Evaluate.{AuthResult}

-- `module.CheckResult`; a header is its raw fields.
pub record CheckResult : Type 0 where
  pub reason : Option Error
  pub rejects : Bool
  pub quarantines : Bool
  pub auth_result : List AuthResult
  pub header : List Text

abbrev pub empty_result : CheckResult
empty_result = record {
  reason = none;
  rejects = false;
  quarantines = false;
  auth_result = [];
  header = [];
}

pub record FailAction : Type 0 where
  pub action_quarantine : Bool
  pub action_reject : Bool
  pub reason_override : Option Smtp

-- The error that wraps the reason: the code, the enhanced code and the message of the override.
override_reason : Option Smtp → Error → Error
override_reason none e = e
override_reason (some se) e =
    smtp_error
      (record {
        code = se.code;
        enhanced_code = se.enhanced_code;
        message = se.message;
        check_name = [];
        target_name = [];
        modifier_name = [];
        reason = [];
        misc = [];
      })
      e

apply_reason : FailAction → CheckResult → Option Error → CheckResult
unfolding override_reason
apply_reason a res none = res
apply_reason a res (some e) = record res {
  reason = some (override_reason a.reason_override e);
  quarantines = a.action_quarantine || res.quarantines;
  rejects = a.action_reject || res.rejects;
}

-- `FailAction.Apply`
unfoldable pub apply_action : FailAction → CheckResult → CheckResult
unfolding apply_reason
apply_action a res = apply_reason a res res.reason
