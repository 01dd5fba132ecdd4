-- ===== src/Checks/Results/Tests.antt =====
-- A message that DMARC refuses for now.
use sirr_mesh.Base.{◌≡◌, refl, true, false, some, [], ◌∷◌, text}
use sirr_mesh.Dmarc.Evaluate.{EvalResult, reject, temp_error, seen_nothing}
use sirr_mesh.Checks.Runner.{Merged, is_error}
use sirr_mesh.Checks.Results.{Formats, Message, dmarc_error, apply_results}
use sirr_mesh.Checks.Results.Effect.{apply_results-effect}

abbrev pub formats : Formats
formats = record {
  field = λ host results dmarc. text "Authentication-Results";
  add_field = λ field header. field ∷ header;
  value_text = λ v. text "temperror";
}

abbrev pub unsure : EvalResult
unsure = record {
  value = temp_error;
  reason = text "SPF authentication temp error";
  from_domain = text "a.org";
  evidence = seen_nothing;
}

abbrev merged : Merged
merged = record { merged_auth = []; merged_header = []; merged_quarantine = false }

abbrev pub message : Message
message = record { quarantined = false; header = [] }

refused :
    (apply_results formats (text "mx") merged (some (unsure, reject)) message).1
    ≡ some (dmarc_error formats unsure)
unfolding apply_results
refused = refl

apply_results-effect_example :
    (is_error (apply_results formats (text "mx") merged (some (unsure, reject)) message).1 ≡ true)
    × ((apply_results formats (text "mx") merged (some (unsure, reject)) message).0.quarantined
        ≡ false)
apply_results-effect_example =
    apply_results-effect formats (text "mx") merged (some (unsure, reject)) message
