-- ===== src/Checks/States/Tests.antt =====
-- A message with a check of the connection, and one that a recipient's block adds.
use sirr_mesh.Base.{◌≡◌, refl, none, [], ◌∷◌, text, text_eq, false}
use sirr_mesh.Checks.Action.{empty_result}
use sirr_mesh.Checks.Runner.{merge_results}
use sirr_mesh.Checks.States.{
  Checks, Runner, check_connection, check_body, check_sender, check_rcpt, check_conn_sender,
  check_rcpt_of, check_body_of,
}
use sirr_mesh.Checks.States.Once.{Once, check_rcpt_of-Once}

abbrev pub quiet_checks : Checks
quiet_checks = record { init = λ c. none; respond = λ s m. empty_result }

-- `newCheckRunner`
abbrev pub fresh : Runner
fresh = record {
  mail_from = none;
  checked_rcpts = [];
  rcpts_per_check = [];
  states = [];
  merged = record { merged_auth = []; merged_header = []; merged_quarantine = false };
  next_serial = 0;
  calls = [];
  closed = [];
}

abbrev from_me : Runner
from_me = (check_conn_sender quiet_checks fresh (1 ∷ []) (text "me")).0

abbrev to_you : Runner
to_you = (check_rcpt_of quiet_checks from_me (1 ∷ []) (text "you")).0

-- The second check is shown the connection, the sender and the recipient; the first is not asked
-- again.
replayed :
    (check_body_of quiet_checks to_you (1 ∷ 2 ∷ [])).0.calls
    ≡ ((1, 0), check_connection)
      ∷ ((1, 0), check_sender (text "me"))
      ∷ ((1, 0), check_rcpt (text "you"))
      ∷ ((2, 1), check_connection)
      ∷ ((2, 1), check_sender (text "me"))
      ∷ ((2, 1), check_rcpt (text "you"))
      ∷ ((1, 0), check_body)
      ∷ ((2, 1), check_body)
      ∷ []
unfolding check_body_of check_rcpt_of check_conn_sender merge_results text_eq
replayed = refl

check_rcpt_of-Once_example :
    Once (check_conn_sender quiet_checks fresh (1 ∷ []) (text "me")).0
    × Once (check_rcpt_of quiet_checks fresh (1 ∷ []) (text "you")).0
    × Once (check_body_of quiet_checks fresh (1 ∷ [])).0
check_rcpt_of-Once_example =
    check_rcpt_of-Once quiet_checks fresh (1 ∷ []) (text "me") (text "you") (λ s r. refl)
