-- ===== src/Pipeline/Tests.antt =====
-- A pipeline with a recipient that is rewritten and goes to two targets, and one that goes by default.
use sirr_mesh.Base.{
  ℕ, ◌≡◌, refl, ◌==◌, if◌then◌else◌, true, false, none, some, List, [], ◌∷◌, ◌++◌, Text, text,
  text_eq, lookup, ok, err, insert,
}
use sirr_mesh.Exterrors.{plain}
use sirr_mesh.Address.Syntax.{split}
use sirr_mesh.Address.Norm.{for_lookup, equal}
use sirr_mesh.Address.Norm.Tests.{ascii}
use sirr_mesh.Modify.Group.{Modifier, mod_state_for_msg, group_rcpt, group_sender, group_body}
use sirr_mesh.Checks.States.{check_conn_sender, check_rcpt_of, check_body_of}
use sirr_mesh.Checks.States.Tests.{quiet_checks, fresh}
use sirr_mesh.Checks.Results.{apply_results}
use sirr_mesh.Checks.Results.Tests.{formats, message}
use sirr_mesh.Pipeline.Config.{SourceBlock, RcptBlock, MsgPipeline, World, Delivering}
use sirr_mesh.Pipeline.Route.{rcpt_block_for_addr, src_block_for_addr, first_match}
use sirr_mesh.Pipeline.Route.Rules.{equal-rcpt_block_for_addr}
use sirr_mesh.Pipeline.Start.{start}
use sirr_mesh.Pipeline.Recipients.{add_rcpt}
use sirr_mesh.Pipeline.Recipients.Offered.{plan}
use sirr_mesh.Pipeline.Recipients.Planned.{add_rcpt-plan}
use sirr_mesh.Pipeline.Body.{Job, body, body_non_atomic, translated, commit, abort, targets_of}
use sirr_mesh.Pipeline.Body.Sent.{Sends, Runs, Ends, body-Sends, commit-Runs}

-- `info` and `sales` are aliases of `me`.
abbrev alias : Text → List Text
alias to =
    if text_eq to (text "info@a.org")
    then text "me@a.org" ∷ []
    else if text_eq to (text "sales@a.org")
    then text "me@a.org" ∷ []
    else to ∷ []

abbrev aliases : Modifier
aliases = record {
  init = none;
  rewrite_sender = λ from. ok from;
  rewrite_rcpt = λ to. ok (alias to);
  rewrite_body = λ h. ok (text "Signed" ∷ h);
  close = none;
}

abbrev source : SourceBlock
source = record {
  source_checks = [];
  source_modifiers = [];
  source_reject = none;
  rcpt_in = [];
  per_rcpt = (text "a.org", 1) ∷ [];
  default_rcpt = 2;
}

abbrev pipeline : MsgPipeline
pipeline = record {
  global_checks = 7 ∷ [];
  global_modifiers = aliases ∷ [];
  source_in = [];
  per_source = [];
  default_source = source;
  do_dmarc = false;
  first_pipeline = true;
  hostname = text "mx";
}

abbrev rcpt_block : ℕ → RcptBlock
rcpt_block b = record {
  rcpt_checks = [];
  rcpt_modifiers = [];
  rcpt_reject = none;
  targets = if b == 1 then 10 ∷ 11 ∷ [] else 12 ∷ [];
}

-- Target 11 refuses the body and sets no statuses; target 10 sets one.
abbrev world : World
world = record {
  packages = ascii;
  checks = quiet_checks;
  block = rcpt_block;
  target_start = λ t from. none;
  target_rcpt = λ t before to. none;
  target_body = λ t h. if t == 11 then some (plain (text "full")) else none;
  target_statuses =
      λ t h. if t == 10 then some ((text "me@a.org", some (plain (text "busy"))) ∷ []) else none;
  target_commit = λ t. if t == 10 then some (plain (text "lost")) else none;
  target_abort = λ t. if t == 10 then some (plain (text "lost")) else none;
  is_pipeline = λ t. false;
}

abbrev begun : Delivering
begun = record {
  runner = fresh;
  source_block = source;
  source_addr = text "you@b.org";
  opened = [];
  deliveries = [];
  original_rcpts = [];
  offered = [];
}

abbrev to_info : Delivering
to_info = (add_rcpt world pipeline (text "info@a.org") begun).0

abbrev to_both : Delivering
to_both = (add_rcpt world pipeline (text "sales@a.org") to_info).0

abbrev job : Job
job = record { formats = formats; received = ok (text "Received"); dmarc = none }

-- The recipient is offered to both targets as `me`.
info_offered : to_info.offered ≡ (10, text "me@a.org") ∷ (11, text "me@a.org") ∷ []
unfolding add_rcpt rcpt_block_for_addr for_lookup split group_rcpt mod_state_for_msg check_rcpt_of
    text_eq lookup first_match insert
info_offered = refl

add_rcpt-plan_example :
    (l : List (ℕ × Text)) × (plan world source pipeline (text "info@a.org") ≡ ok l)
    × ((add_rcpt world pipeline (text "info@a.org") begun).0.offered ≡ [] ++ l)
unfolding add_rcpt rcpt_block_for_addr for_lookup split group_rcpt mod_state_for_msg check_rcpt_of
    text_eq lookup first_match insert
add_rcpt-plan_example = add_rcpt-plan world pipeline (text "info@a.org") begun refl

-- The error for `info` at target 10 is reported for `sales`, and `sales` gets two statuses.
both_statuses :
    (body_non_atomic world pipeline [] to_both).1
    ≡ (text "sales@a.org", some (plain (text "busy")))
      ∷ (text "info@a.org", some (plain (text "full")))
      ∷ (text "sales@a.org", some (plain (text "full")))
      ∷ []
unfolding body_non_atomic check_body_of group_body add_rcpt rcpt_block_for_addr for_lookup split
    group_rcpt mod_state_for_msg check_rcpt_of text_eq lookup first_match insert translated
both_statuses = refl

info_called : (body world pipeline job message to_info).called ≡ 10 ∷ 11 ∷ []
unfolding body apply_results check_body_of group_body add_rcpt rcpt_block_for_addr for_lookup split
    group_rcpt mod_state_for_msg check_rcpt_of text_eq lookup first_match insert
info_called = refl

body-Sends_example :
    Sends world pipeline job message to_info (body world pipeline job message to_info)
body-Sends_example = body-Sends world pipeline job message to_info

commit-Runs_example :
    Runs world.target_commit
      (targets_of to_info.deliveries)
      (commit world to_info).0
      (commit world to_info).1
    × ((abort world to_info).0 ≡ targets_of to_info.deliveries)
    × Ends none world.target_abort (targets_of to_info.deliveries) (abort world to_info).1
commit-Runs_example = commit-Runs world to_info

committed : (commit world to_info).0 ≡ 10 ∷ []
unfolding commit add_rcpt rcpt_block_for_addr for_lookup split group_rcpt mod_state_for_msg
    check_rcpt_of text_eq lookup first_match insert
committed = refl

-- The state behind `start`: the sender's block is the default one.
start_run : (start world pipeline (text "You@B.org") begun).1 ≡ ok tt
unfolding start src_block_for_addr for_lookup split group_sender mod_state_for_msg check_conn_sender
    lookup text_eq first_match
start_run = refl

equal-rcpt_block_for_addr_example :
    rcpt_block_for_addr ascii
      (record source { rcpt_in = (λ t. err (plain []), 5) ∷ [] })
      (text "info@A.org")
    ≡ rcpt_block_for_addr ascii (record source { rcpt_in = [] }) (text "info@a.org")
unfolding equal for_lookup split text_eq
equal-rcpt_block_for_addr_example =
    equal-rcpt_block_for_addr ascii source (text "info@A.org") (text "info@a.org") [] []
      (λ t. err (plain [])) 5 (plain []) refl refl refl refl
