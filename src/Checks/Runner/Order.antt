-- ===== src/Checks/Runner/Order.antt =====
-- The verdict of the checks does not depend on the order in which they finish.
use sirr_mesh.Base.{
  ◌≡◌, refl, Bool, true, false, ◌||◌, ◌&&◌, not, Option, none, some, List, all, [], ◌∷◌, arith,
}
use sirr_mesh.Exterrors.{Error}
use sirr_mesh.Checks.Action.{CheckResult}
use sirr_mesh.Checks.Runner.{
  Merged, Run, once, absorb, absorb_all, error_of, is_error, conclude_run, merge_results,
}

-- A result that rejects and does not quarantine.
abbrev pub rejecting : CheckResult → Bool
rejecting res = not res.quarantines && res.rejects

abbrev pub some_check : (CheckResult → Bool) → List CheckResult → Bool
some_check test [] = false
some_check test (res ∷ results) = test res || some_check test results

-- Results that reject or quarantine have a reason.
abbrev pub has_reason : CheckResult → Bool
has_reason res = is_error res.reason || not (res.quarantines || res.rejects)

-- A `sync.Once` is not used up by a result with no reason.
abbrev is_sound : Option (Option Error) → Bool
is_sound (some none) = false
is_sound _ = true

once-error :
    (o : Option (Option Error)) (e : Option Error)
    → is_sound o ≡ true
    → is_error e ≡ true
    → (is_error (error_of (once o e)) ≡ true) × (is_sound (once o e) ≡ true)
once-error none none s h = cc
once-error none (some e) s h = (refl, refl)
once-error (some none) e s h = cc
once-error (some (some x)) e s h = (refl, refl)

-- What the goroutines leave behind.
abbrev Verdict : Run → List CheckResult → Run → Type 0
Verdict run results end =
    (is_error (error_of end.reject_err)
      ≡ (is_error (error_of run.reject_err) || some_check rejecting results))
    × (is_error (error_of end.quarantine_err)
        ≡ (is_error (error_of run.quarantine_err) || some_check (λ r. r.quarantines) results))
    × (end.merged.merged_quarantine ≡ run.merged.merged_quarantine)

absorb-Verdict :
    (run : Run) (res : CheckResult)
    → is_sound run.reject_err ≡ true
    → is_sound run.quarantine_err ≡ true
    → has_reason res ≡ true
    → Verdict run (res ∷ []) (absorb res run)
      × (is_sound (absorb res run).reject_err ≡ true)
      × (is_sound (absorb res run).quarantine_err ≡ true)
unfolding absorb
absorb-Verdict run res s t h =
    ground
      (arith, h, once-error run.quarantine_err res.reason t, once-error run.reject_err res.reason s)

absorb_all-Verdict :
    (run : Run) (results : List CheckResult)
    → is_sound run.reject_err ≡ true
    → is_sound run.quarantine_err ≡ true
    → all has_reason results ≡ true
    → Verdict run results (absorb_all run results)
unfolding absorb_all
absorb_all-Verdict run [] s t h = ground arith
absorb_all-Verdict run (res ∷ results) s t h =
    let (first, s', t') = absorb-Verdict run res s t (ground (arith, h)) in
    let rest = absorb_all-Verdict (absorb res run) results s' t' (ground (arith, h)) in
    ground (arith, first, rest)

conclude_run-verdict :
    (run : Run) (e : Option Error)
    → (is_error (conclude_run run e).1 ≡ is_error e)
      × (is_error e ≡ false
          → (conclude_run run e).0.merged_quarantine
            ≡ (is_error (error_of run.quarantine_err) || run.merged.merged_quarantine))
unfolding conclude_run
conclude_run-verdict run none = (refl, λ h. refl)
conclude_run-verdict run (some e) = (refl, λ h. absurd (ground (arith, h)))

-- If results that reject or quarantine have a reason, the message is rejected exactly if some
-- result rejects without quarantining, and otherwise it is quarantined exactly if some result
-- quarantines or it was already: in whichever order the checks finish.
pub merge_results-verdict :
    (m : Merged) (results : List CheckResult)
    → all has_reason results ≡ true
    → (is_error (merge_results m results).1 ≡ some_check rejecting results)
      × (some_check rejecting results ≡ false
          → (merge_results m results).0.merged_quarantine
            ≡ (some_check (λ r. r.quarantines) results || m.merged_quarantine))
unfolding merge_results
merge_results-verdict m results h =
    let start : Run = record { merged = m; quarantine_err = none; reject_err = none } in
    let end = absorb_all start results in
    let v = absorb_all-Verdict start results refl refl h in
    let c = conclude_run-verdict end (error_of end.reject_err) in
    (ground (arith, v, c), λ k. ground (arith, v, c, k))
