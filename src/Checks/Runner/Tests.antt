-- ===== src/Checks/Runner/Tests.antt =====
-- Runs of the merging of results.
use sirr_mesh.Base.{◌≡◌, refl, true, false, none, some, [], ◌∷◌, text}
use sirr_mesh.Exterrors.{plain}
use sirr_mesh.Checks.Action.{CheckResult, empty_result, FailAction, apply_action}
use sirr_mesh.Checks.Runner.{Merged, is_error, merge_results}
use sirr_mesh.Checks.Runner.Order.{merge_results-verdict}

abbrev start : Merged
start = record { merged_auth = []; merged_header = []; merged_quarantine = false }

abbrev spam : CheckResult
spam = record empty_result { reason = some (plain (text "spam")); quarantines = true }

abbrev virus : CheckResult
virus = record empty_result { reason = some (plain (text "virus")); rejects = true }

-- A result that rejects with no reason uses up the `sync.Once`: the message is not rejected.
abbrev silent : CheckResult
silent = record empty_result { rejects = true }

virus_run : (merge_results start (spam ∷ virus ∷ [])).1 ≡ some (plain (text "virus"))
unfolding merge_results
virus_run = refl

silent_run : (merge_results start (silent ∷ virus ∷ [])).1 ≡ none
unfolding merge_results
silent_run = refl

-- With the action `quarantine`, a check that rejects does no more than quarantine.
abbrev quarantine_action : FailAction
quarantine_action = record {
  action_quarantine = true;
  action_reject = false;
  reason_override = none;
}

softened : (merge_results start (apply_action quarantine_action virus ∷ [])).1 ≡ none
unfolding merge_results apply_action
softened = refl

merge_results-verdict_example :
    (is_error (merge_results start (spam ∷ empty_result ∷ [])).1 ≡ false)
    × (false ≡ false → (merge_results start (spam ∷ empty_result ∷ [])).0.merged_quarantine ≡ true)
merge_results-verdict_example = merge_results-verdict start (spam ∷ empty_result ∷ []) refl
