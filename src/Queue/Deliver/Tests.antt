-- ===== src/Queue/Deliver/Tests.antt =====
-- A run against a target that refuses one recipient, and witnesses.
use sirr_mesh.Base.{
  ◌≡◌, refl, ◌↔◌, true, false, none, some, List, [], ◌∷◌, Text, text, text_eq, has_key, member,
}
use sirr_mesh.Exterrors.{plain}
use sirr_mesh.Queue.Deliver.{atomic, Target, call_start, call_body, call_commit, call_rcpt, deliver}
use sirr_mesh.Queue.Deliver.Outcome.{Committed, deliver-Committed_iff}
use sirr_mesh.Base.{if◌then◌else◌}

abbrev target : Target
target = record {
  start = none;
  add_rcpt = λ offered r. if text_eq r (text "b") then some (plain []) else none;
  body = atomic none;
  commit_result = none;
}

abbrev rcpts : List Text
rcpts = text "a" ∷ text "b" ∷ []

deliver_calls :
    (deliver target rcpts).1
    ≡ call_start ∷ call_rcpt (text "a") ∷ call_rcpt (text "b") ∷ call_body ∷ call_commit ∷ []
unfolding deliver text_eq
deliver_calls = refl

deliver-Committed_iff_example :
    ((r : Text) × (member r rcpts ≡ true) × (has_key r (deliver target rcpts).0 ≡ false))
    ↔ Committed target rcpts
deliver-Committed_iff_example = deliver-Committed_iff target rcpts
