-- ===== src/Checks/Runner.antt =====
-- internal/msgpipeline/check_runner.go: the checks of one message.
--
-- A check is named by a number, as its state is. What the calls of a state return is a parameter.
-- The goroutines of `runAndMergeResults` merge their results under locks, one after the other: the
-- list of the results stands in the order in which they do. A check that panics adds nothing, as an
-- empty result does.
pub mod Order
mod Tests
use sirr_mesh.Base.{
  Bool, true, false, ◌||◌, Option, none, some, List, [], ◌∷◌, ◌++◌, if◌then◌else◌, Text,
}
use sirr_mesh.Exterrors.{Error}
use sirr_mesh.Dmarc.Evaluate.{AuthResult}
use sirr_mesh.Checks.Action.{CheckResult}

-- `mergedRes`, without the fields that are not used.
pub record Merged : Type 0 where
  pub merged_auth : List AuthResult
  pub merged_header : List Text
  pub merged_quarantine : Bool

-- The variables of `runAndMergeResults`: the error of the first result that quarantines, and of the
-- first that rejects; `some none` is a `sync.Once` used for a result with no reason.
pub record Run : Type 0 where
  pub merged : Merged
  pub quarantine_err : Option (Option Error)
  pub reject_err : Option (Option Error)

-- `sync.Once.Do`
abbrev pub once : Option (Option Error) → Option Error → Option (Option Error)
once none e = some e
once (some first) e = some first

-- What one goroutine does with its result.
absorb : CheckResult → Run → Run
absorb res run =
    let m = run.merged in
    let merged' = record m {
      merged_auth = m.merged_auth ++ res.auth_result;
      merged_header = m.merged_header ++ res.header;
    } in
    if res.quarantines
    then record run { merged = merged'; quarantine_err = once run.quarantine_err res.reason }
    else if res.rejects
    then record run { merged = merged'; reject_err = once run.reject_err res.reason }
    else record run { merged = merged' }

absorb_all : Run → List CheckResult → Run
unfolding absorb
absorb_all run [] = run
absorb_all run (res ∷ results) = absorb_all (absorb res run) results

-- An error that is set, and not to nil.
abbrev pub error_of : Option (Option Error) → Option Error
error_of none = none
error_of (some e) = e

abbrev pub is_error : Option Error → Bool
is_error none = false
is_error (some e) = true

conclude_run : Run → Option Error → Merged × Option Error
conclude_run run (some e) = (run.merged, some e)
conclude_run run none =
    let m = run.merged in
    (
      record m {
        merged_quarantine = is_error (error_of run.quarantine_err) || m.merged_quarantine;
      },
      none,
    )

-- `runAndMergeResults`
unfoldable pub merge_results : Merged → List CheckResult → Merged × Option Error
unfolding absorb_all conclude_run
merge_results m results =
    let run =
      absorb_all (record { merged = m; quarantine_err = none; reject_err = none }) results in
    conclude_run run (error_of run.reject_err)
