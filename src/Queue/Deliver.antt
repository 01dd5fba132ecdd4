-- ===== src/Queue/Deliver.antt =====
-- queue.go, `deliver`: one attempt to hand the message to the target.
--
-- The target is a parameter: what its calls return. `add_rcpt` may depend on the recipients already
-- offered. A target that implements `PartialDelivery` is given by the `SetStatus` calls that its
-- `BodyNonAtomic` makes. The calls that the queue makes are recorded in order.
pub mod Outcome
mod Tests
use sirr_mesh.Base.{
  Bool, true, false, ◌&&◌, Option, none, some, List, [], ◌∷◌, ◌++◌, Text, Map, lookup, insert,
  has_key,
}
use sirr_mesh.Exterrors.{Error}

pub data Data : Type 0 where
  atomic : Option Error → Data
  partial : List (Text × Option Error) → Data

pub record Target : Type 0 where
  pub start : Option Error
  pub add_rcpt : List Text → Text → Option Error
  pub body : Data
  pub commit_result : Option Error

pub data Call : Type 0 where
  call_start call_body call_commit call_abort : Call
  call_rcpt : Text → Call

-- `partialError.Errs`
abbrev pub Errs : Type 0
Errs = Map Error

-- `partialError.SetStatus`
unfoldable pub set_status : Errs → Text → Option Error → Errs
unfolding insert
set_status errs rcpt none = errs
set_status errs rcpt (some e) = insert rcpt e errs

-- `for _, rcpt := range rcpts { perr.Errs[rcpt] = err }`
unfoldable pub expand : Error → List Text → Errs → Errs
unfolding insert
expand err [] errs = errs
expand err (r ∷ rcpts) errs = expand err rcpts (insert r err errs)

-- The answer to one RCPT: the errors and `acceptedRcpts`.
answer : Text → Option Error → Errs × List Text → Errs × List Text
unfolding insert
answer r (some e) (errs, accepted) = (insert r e errs, accepted)
answer r none (errs, accepted) = (errs, accepted ++ (r ∷ []))

-- The RCPT loop.
add_rcpts : Target → List Text → Errs × List Text → List Text → Errs × List Text
unfolding answer
add_rcpts t offered taken [] = taken
add_rcpts t offered taken (r ∷ rcpts) =
    add_rcpts t (offered ++ (r ∷ [])) (answer r (t.add_rcpt offered r) taken) rcpts

set_statuses : Errs → List (Text × Option Error) → Errs
unfolding set_status
set_statuses errs [] = errs
set_statuses errs ((r, e) ∷ statuses) = set_statuses (set_status errs r e) statuses

-- The DATA step.
run_body : Data → List Text → Errs → Errs
unfolding set_statuses expand
run_body (atomic none) accepted errs = errs
run_body (atomic (some e)) accepted errs = expand e accepted errs
run_body (partial statuses) accepted errs = set_statuses errs statuses

-- `allFailed`
all_failed : Errs → List Text → Bool
unfolding lookup
all_failed errs [] = true
all_failed errs (r ∷ rcpts) = has_key r errs && all_failed errs rcpts

abbrev rcpt_calls : List Text → List Call
rcpt_calls [] = []
rcpt_calls (r ∷ rcpts) = call_rcpt r ∷ rcpt_calls rcpts

-- From the `Commit` call on.
finish : Option Error → List Text → Errs → Errs
unfolding expand
finish none accepted errs = errs
finish (some e) accepted errs = expand e accepted errs

-- `if allFailed`
settle : Target → Errs → List Text → Bool → Errs × List Call
unfolding finish
settle t errs accepted true = (errs, call_body ∷ call_abort ∷ [])
settle t errs accepted false = (finish t.commit_result accepted errs, call_body ∷ call_commit ∷ [])

-- Behind the RCPT loop.
transfer : Target → Errs → List Text → Errs × List Call
unfolding settle
transfer t errs [] = (errs, call_abort ∷ [])
transfer t errs (a ∷ accepted) =
    let errs' = run_body t.body (a ∷ accepted) errs in
    settle t errs' (a ∷ accepted) (all_failed errs' (a ∷ accepted))

after_start : Target → List Text → Errs × List Call
unfolding add_rcpts transfer
after_start t to =
    let (errs, accepted) = add_rcpts t [] ([], []) to in
    let (errs', calls) = transfer t errs accepted in (errs', call_start ∷ (rcpt_calls to ++ calls))

started : Target → List Text → Option Error → Errs × List Call
unfolding after_start expand
started t to (some e) = (expand e to [], call_start ∷ [])
started t to none = after_start t to

unfoldable pub deliver : Target → List Text → Errs × List Call
unfolding started run_body all_failed finish expand
deliver t to = started t to t.start
