-- ===== src/Checks/States.antt =====
-- internal/msgpipeline/check_runner.go: which calls the checks of a message get, and when.
--
-- A check is a number; its state for the message is the check with a serial number, so that a state
-- made again after a failure is another one. The calls are recorded in order, as are the states
-- closed. The states of one round run as goroutines; they are listed in their order.
pub mod Once
pub mod Tests
use sirr_mesh.Base.{
  ℕ, suc, Bool, true, false, ◌||◌, ◌&&◌, Option, none, some, List, [], ◌∷◌, ◌++◌, ◌==◌,
  if◌then◌else◌, Text, text_eq, Result, ok, err,
}
use sirr_mesh.Exterrors.{Error}
use sirr_mesh.Checks.Action.{CheckResult, empty_result}
use sirr_mesh.Checks.Runner.{Merged, merge_results}

abbrev pub State : Type 0
State = ℕ × ℕ

pub data Method : Type 0 where
  check_connection check_body : Method
  check_sender : Text → Method
  check_rcpt : Text → Method

pub record Checks : Type 0 where
  -- `CheckStateForMsg`: an error, or none
  pub init : ℕ → Option Error
  pub respond : State → Method → CheckResult

-- `checkRunner`. `rcpts_per_check` is `checkedRcptsPerCheck`, as pairs.
pub record Runner : Type 0 where
  pub mail_from : Option Text
  pub checked_rcpts : List Text
  pub rcpts_per_check : List (State × Text)
  pub states : List State
  pub merged : Merged
  pub next_serial : ℕ
  pub calls : List (State × Method)
  pub closed : List State

abbrev pub same_state : State → State → Bool
same_state (a, b) (c, d) = a == c && b == d

abbrev pub asked : State → Text → List (State × Text) → Bool
asked s rcpt [] = false
asked s rcpt ((t, r) ∷ rest) = (same_state t s && text_eq r rcpt) || asked s rcpt rest

-- `cr.states[check]`
state_of : ℕ → List State → Option State
state_of check [] = none
state_of check ((c, n) ∷ rest) = if c == check then some (c, n) else state_of check rest

-- A call of each state, and the results.
call_each : Checks → Method → Runner → List State → Runner × List CheckResult
call_each k m r [] = (r, [])
call_each k m r (s ∷ states) =
    let (r', results) = call_each k m (record r { calls = r.calls ++ ((s, m) ∷ []) }) states in
    (r', k.respond s m ∷ results)

-- The function that `checkRcpt` gives to `runAndMergeResults`, for one state.
ask : Checks → Text → State → Bool → Runner → Runner × CheckResult
ask k rcpt s true r = (r, empty_result)
ask k rcpt s false r = (
  record r {
    rcpts_per_check = (s, rcpt) ∷ r.rcpts_per_check;
    calls = r.calls ++ ((s, check_rcpt rcpt) ∷ []);
  },
  k.respond s (check_rcpt rcpt),
)

ask_each : Checks → Text → Runner → List State → Runner × List CheckResult
unfolding ask
ask_each k rcpt r [] = (r, [])
ask_each k rcpt r (s ∷ states) =
    let (r1, res) = ask k rcpt s (asked s rcpt r.rcpts_per_check) r in
    let (r2, results) = ask_each k rcpt r1 states in (r2, res ∷ results)

-- `runAndMergeResults` over what the states answered.
merge_into : Runner × List CheckResult → Runner × Option Error
unfolding merge_results
merge_into (r, results) =
    let (m, e) = merge_results r.merged results in (record r { merged = m }, e)

abbrev run_each : Checks → Method → Runner → List State → Runner × Option Error
run_each k m r states = merge_into (call_each k m r states)

abbrev run_rcpt : Checks → Text → Runner → List State → Runner × Option Error
run_rcpt k rcpt r states = merge_into (ask_each k rcpt r states)

-- A step that goes on unless there was an error.
abbrev and_next : Runner × Option Error → (Runner → Runner × Option Error) → Runner × Option Error
and_next (r, none) next = next r
and_next (r, some e) next = (r, some e)

-- The connection and the sender, for the states that are new.
replay_sender : Checks → List State → Option Text → Runner → Runner × Option Error
unfolding merge_into call_each
replay_sender k new none r = (r, none)
replay_sender k new (some from) r =
    and_next (run_each k check_connection r new) (λ r'. run_each k (check_sender from) r' new)

-- The recipients so far, for all states.
replay_rcpts : Checks → List State → List Text → Runner → Runner × Option Error
unfolding merge_into ask_each
replay_rcpts k states [] r = (r, none)
replay_rcpts k states (rcpt ∷ rcpts) r =
    and_next (run_rcpt k rcpt r states) (λ r'. replay_rcpts k states rcpts r')

-- The loop of `checkStates`: `states` and `newStates`.
pub record Gathered : Type 0 where
  pub all_states : List State
  pub new_states : List State
  pub init_error : Option Error
  pub serial : ℕ

gather_one : ℕ → Option State → Option Error → Gathered → Gathered
gather_one check (some s) e g = record g { all_states = g.all_states ++ (s ∷ []) }
gather_one check none (some e) g = record g { init_error = some e }
gather_one check none none g = record g {
  all_states = g.all_states ++ ((check, g.serial) ∷ []);
  new_states = g.new_states ++ ((check, g.serial) ∷ []);
  serial = suc g.serial;
}

-- After an error of `CheckStateForMsg` the loop is left.
gather_next : Checks → List State → ℕ → Option Error → Gathered → Gathered
unfolding gather_one state_of
gather_next k known check (some e) g = g
gather_next k known check none g = gather_one check (state_of check known) (k.init check) g

gather : Checks → List State → Gathered → List ℕ → Gathered
unfolding gather_next
gather k known g [] = g
gather k known g (check ∷ checks) = gather k known (gather_next k known check g.init_error g) checks

-- `for check, state := range newStatesMap`: the last state of a check is kept.
register : List State → List State → List State
unfolding state_of
register known [] = known
register known ((c, n) ∷ new) = register ((c, n) ∷ known) new

-- `closeStates` on an error; otherwise the new states are registered.
closing : Gathered → Runner × Option Error → Runner × Result Error (List State)
unfolding register
closing g (r, some e) = (record r { closed = r.closed ++ g.all_states }, err e)
closing g (r, none) = (record r { states = register r.states g.new_states }, ok g.all_states)

replay : Checks → Gathered → List State → Runner → Runner × Option Error
unfolding replay_sender replay_rcpts
replay k g [] r = (r, none)
replay k g (s ∷ new) r =
    and_next (replay_sender k (s ∷ new) r.mail_from r)
      (λ r'. replay_rcpts k g.all_states r'.checked_rcpts r')

gathered : Checks → Gathered → Option Error → Runner → Runner × Option Error
unfolding replay
gathered k g (some e) r = (r, some e)
gathered k g none r = replay k g g.new_states r

-- `checkStates`
unfoldable pub check_states : Checks → Runner → List ℕ → Runner × Result Error (List State)
unfolding gather gathered closing replay
check_states k r checks =
    let g =
      gather k r.states
        (record { all_states = []; new_states = []; init_error = none; serial = r.next_serial })
        checks in
    closing g (gathered k g g.init_error (record r { next_serial = g.serial }))

error_only : Runner × Result Error (List State) → Runner × Option Error
error_only (r, ok states) = (r, none)
error_only (r, err e) = (r, some e)

-- `checkConnSender`
unfoldable pub check_conn_sender : Checks → Runner → List ℕ → Text → Runner × Option Error
unfolding error_only check_states
check_conn_sender k r checks from =
    error_only (check_states k (record r { mail_from = some from }) checks)

-- `cr.checkedRcpts = append(...)`, also when a check has rejected the recipient.
remember : Text → Runner × Option Error → Runner × Option Error
remember rcpt (r, e) = (record r { checked_rcpts = r.checked_rcpts ++ (rcpt ∷ []) }, e)

rcpt_with : Checks → Text → Runner × Result Error (List State) → Runner × Option Error
unfolding remember merge_into ask_each
rcpt_with k rcpt (r, err e) = (r, some e)
rcpt_with k rcpt (r, ok states) = remember rcpt (run_rcpt k rcpt r states)

-- `checkRcpt`
unfoldable pub check_rcpt_of : Checks → Runner → List ℕ → Text → Runner × Option Error
unfolding rcpt_with check_states
check_rcpt_of k r checks rcpt = rcpt_with k rcpt (check_states k r checks)

body_with : Checks → Runner × Result Error (List State) → Runner × Option Error
unfolding merge_into call_each
body_with k (r, err e) = (r, some e)
body_with k (r, ok states) = run_each k check_body r states

-- `checkBody`, without the start of the DMARC lookup.
unfoldable pub check_body_of : Checks → Runner → List ℕ → Runner × Option Error
unfolding body_with check_states
check_body_of k r checks = body_with k (check_states k r checks)
