-- ===== src/Pipeline/Body.antt =====
-- internal/msgpipeline/msgpipeline.go: `Body`, `BodyNonAtomic`, `statusCollector`, `Commit` and `Abort`.
--
-- The field Received (internal/target/received.go) and the result of the DMARC check are given. States
-- of modifiers hold nothing here, so that `close` is that of the check runner.
pub mod Sent
use sirr_mesh.Base.{
  ℕ, Bool, true, false, Option, none, some, List, [], ◌∷◌, ◌++◌, Text, Map, lookup, Result, ok, err,
}
use sirr_mesh.Exterrors.{Error}
use sirr_mesh.Dmarc.Evaluate.{Policy, EvalResult}
use sirr_mesh.Modify.Group.{Modifier, group_body}
use sirr_mesh.Checks.States.{check_body_of}
use sirr_mesh.Checks.Results.{Formats, Message, apply_results}
use sirr_mesh.Pipeline.Config.{MsgPipeline, World, Delivering}
use sirr_mesh.Pipeline.Steps.{M, ◌>>◌, pure, run_check}

pub record Job : Type 0 where
  pub formats : Formats
  -- `target.GenerateReceived`, as a field
  pub received : Result Error Text
  pub dmarc : Option (EvalResult × Policy)

-- What a call leaves: the targets whose `Body` it called, with the header that they got.
pub record Outcome : Type 0 where
  pub leaves : Delivering
  pub message : Message
  pub called : List ℕ
  pub failure : Option Error

abbrev pub targets_of : List (ℕ × List Text) → List ℕ
targets_of [] = []
targets_of ((t, rcpts) ∷ ds) = t ∷ targets_of ds

run_next : ℕ → Option Error → List ℕ × Option Error → List ℕ × Option Error
run_next t none (called, e) = (t ∷ called, e)
run_next t (some e) rest = (t ∷ [], some e)

-- The loops of `Body` and `Commit`: to the first error.
unfoldable pub run_all : (ℕ → Option Error) → List ℕ → List ℕ × Option Error
unfolding run_next
run_all call [] = ([], none)
run_all call (t ∷ ts) = run_next t (call t) (run_all call ts)

-- `checkBody` with one list of checks after the other.
check_bodies : World → List (List ℕ) → M (Unit {0})
unfolding check_body_of
check_bodies w [] = pure tt
check_bodies w (checks ∷ rest) = do
  run_check (λ r. check_body_of w.checks r checks)
  check_bodies w rest

abbrev pub rcpt_checks_of : World → List ℕ → List (List ℕ)
rcpt_checks_of w [] = []
rcpt_checks_of w (b ∷ bs) = (w.block b).rcpt_checks ∷ rcpt_checks_of w bs

abbrev pub rcpt_modifiers_of : World → List ℕ → List (List Modifier)
rcpt_modifiers_of w [] = []
rcpt_modifiers_of w (b ∷ bs) = (w.block b).rcpt_modifiers ∷ rcpt_modifiers_of w bs

rewrite_then :
    (List Text → Result Error (List Text)) → Result Error (List Text) → Result Error (List Text)
rewrite_then f (ok h) = f h
rewrite_then f (err e) = err e

-- `RewriteBody` of one group of modifiers after the other.
unfoldable pub rewrite_bodies : List (List Modifier) → List Text → Result Error (List Text)
unfolding rewrite_then group_body
rewrite_bodies [] header = ok header
rewrite_bodies (mods ∷ rest) header = rewrite_then (rewrite_bodies rest) (group_body mods header)

unfoldable pub modifiers_of : World → MsgPipeline → Delivering → List (List Modifier)
modifiers_of w p d =
    p.global_modifiers ∷ d.source_block.source_modifiers ∷ rcpt_modifiers_of w d.opened

with_field : Job → Message → Result Error Text → Result Error Message
with_field j msg (ok field) = ok (record msg { header = j.formats.add_field field msg.header })
with_field j msg (err e) = err e

-- `if dd.d.FirstPipeline`
add_received : Bool → Job → Message → Result Error Message
unfolding with_field
add_received true j msg = with_field j msg j.received
add_received false j msg = ok msg

stopped : Delivering → Message → Error → Outcome
stopped d msg e = record { leaves = d; message = msg; called = []; failure = some e }

sent : Delivering → Message → List ℕ × Option Error → Outcome
sent d msg (called, e) = record { leaves = d; message = msg; called = called; failure = e }

with_header : World → Delivering → Message → Result Error (List Text) → Outcome
unfolding stopped sent run_all
with_header w d msg (err e) = stopped d msg e
with_header w d msg (ok h) =
    sent d (record msg { header = h }) (run_all (λ t. w.target_body t h) (targets_of d.deliveries))

with_results : World → MsgPipeline → Delivering → Message × Option Error → Outcome
unfolding stopped with_header rewrite_bodies modifiers_of
with_results w p d (msg, some e) = stopped d msg e
with_results w p d (msg, none) =
    with_header w d msg (rewrite_bodies (modifiers_of w p d) msg.header)

with_received : World → MsgPipeline → Job → Delivering → Message → Result Error Message → Outcome
unfolding stopped with_results apply_results
with_received w p j d msg (err e) = stopped d msg e
with_received w p j d msg (ok more) =
    with_results w p d (apply_results j.formats p.hostname d.runner.merged j.dmarc more)

with_checks : World → MsgPipeline → Job → Message → Delivering × Result Error (Unit {0}) → Outcome
unfolding stopped with_received add_received
with_checks w p j msg (d, err e) = stopped d msg e
with_checks w p j msg (d, ok u) = with_received w p j d msg (add_received p.first_pipeline j msg)

-- `Body`
unfoldable pub body : World → MsgPipeline → Job → Message → Delivering → Outcome
unfolding with_checks check_bodies
body w p j msg d =
    with_checks w p j msg (
      check_bodies w (p.global_checks ∷ d.source_block.source_checks ∷ rcpt_checks_of w d.opened) d)

or_self : Text → Option Text → Text
or_self rcpt none = rcpt
or_self rcpt (some original) = original

-- `statusCollector.SetStatus`, what it passes on.
unfoldable pub translated : Map Text → List (Text × Option Error) → List (Text × Option Error)
unfolding or_self lookup
translated originals [] = []
translated originals ((rcpt, e) ∷ statuses) =
    (or_self rcpt (lookup rcpt originals), e) ∷ translated originals statuses

abbrev pub status_each : Option Error → List Text → List (Text × Option Error)
status_each e [] = []
status_each e (rcpt ∷ rcpts) = (rcpt, e) ∷ status_each e rcpts

-- `setStatusAll`
abbrev pub set_status_all : Error → List (ℕ × List Text) → List (Text × Option Error)
set_status_all e [] = []
set_status_all e ((t, rcpts) ∷ ds) = status_each (some e) rcpts ++ set_status_all e ds

abbrev pub status_of : Option Error → List Text → List (Text × Option Error)
status_of none rcpts = []
status_of (some e) rcpts = status_each (some e) rcpts

deliver_one :
    World
    → List Text
    → Map Text
    → ℕ
    → List Text
    → Option (List (Text × Option Error))
    → List (Text × Option Error)
unfolding translated
deliver_one w h originals t rcpts (some statuses) = translated originals statuses
deliver_one w h originals t rcpts none = status_of (w.target_body t h) rcpts

-- The loop of `BodyNonAtomic` over the deliveries.
unfoldable pub deliver_partial :
    World → List Text → Map Text → List (ℕ × List Text) → List (Text × Option Error)
unfolding deliver_one
deliver_partial w h originals [] = []
deliver_partial w h originals ((t, rcpts) ∷ ds) =
    deliver_one w h originals t rcpts (w.target_statuses t h) ++ deliver_partial w h originals ds

partial_header : World → Delivering → Result Error (List Text) → List (Text × Option Error)
unfolding deliver_partial
partial_header w d (err e) = set_status_all e d.deliveries
partial_header w d (ok h) = deliver_partial w h d.original_rcpts d.deliveries

partial_checked :
    World
    → MsgPipeline
    → List Text
    → Delivering × Result Error (Unit {0})
    → Delivering × List (Text × Option Error)
unfolding partial_header rewrite_bodies modifiers_of
partial_checked w p header (d, err e) = (d, set_status_all e d.deliveries)
partial_checked w p header (d, ok u) =
    (d, partial_header w d (rewrite_bodies (modifiers_of w p d) header))

-- `BodyNonAtomic`, with the statuses in the order in which they are set.
unfoldable pub body_non_atomic :
    World → MsgPipeline → List Text → Delivering → Delivering × List (Text × Option Error)
unfolding partial_checked check_bodies
body_non_atomic w p header d =
    partial_checked w p header
      (check_bodies w (p.global_checks ∷ d.source_block.source_checks ∷ []) d)

-- The loop of `Commit`.
unfoldable pub commit : World → Delivering → List ℕ × Option Error
unfolding run_all
commit w d = run_all w.target_commit (targets_of d.deliveries)

latest : Option Error → Option Error → Option Error
latest last none = last
latest last (some e) = some e

-- The loop of `Abort`, with `lastErr`.
unfoldable pub abort_all : (ℕ → Option Error) → Option Error → List ℕ → List ℕ × Option Error
unfolding latest
abort_all call last [] = ([], last)
abort_all call last (t ∷ ts) =
    let rest = abort_all call (latest last (call t)) ts in (t ∷ rest.0, rest.1)

-- `Abort`
unfoldable pub abort : World → Delivering → List ℕ × Option Error
unfolding abort_all
abort w d = abort_all w.target_abort none (targets_of d.deliveries)
