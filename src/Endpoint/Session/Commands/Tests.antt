-- ===== src/Endpoint/Session/Commands/Tests.antt =====
-- Sessions with one message.
use sirr_mesh.Base.{
  ◌≡◌, ◌≢◌, refl, true, false, Option, none, some, List, [], ◌∷◌, Text, text, text_eq, Result, ok,
}
use sirr_mesh.Exterrors.{Error, plain}
use sirr_mesh.Address.Syntax.{split, is_ascii}
use sirr_mesh.Address.Norm.{clean_domain}
use sirr_mesh.Address.Norm.Tests.{ascii}
use sirr_mesh.Endpoint.Reply.{Wire, wrap_err}
use sirr_mesh.Endpoint.Session.{
  Call, took, released, began, offered_to, body_sent, forgot, loop_found, Endpoint, Session,
  fresh_session, sender_domain, clean_session, reset, logout,
}
use sirr_mesh.Endpoint.Session.Commands.{Replied, start_delivery, mail, rcpt, smtp_data, lmtp_data}
use sirr_mesh.Endpoint.Session.Commands.Phases.{phase_of, phase_if}
use sirr_mesh.Endpoint.Session.Commands.Steps.{mail_step, rcpt_step, Steps, stay, go}
use sirr_mesh.Endpoint.Session.Commands.Order.{Ends, Steps-Ordered}
use sirr_mesh.Endpoint.Session.Commands.Balance.{held, Balanced}
use sirr_mesh.Endpoint.Session.Commands.Limits.{Steps-Balanced}

abbrev wire : Wire
wire = record {
  is_deadline = λ e. false;
  not_set = record { major = 0; subject = 0; detail = 0 };
  auth_required = record {
    code = 502;
    enhanced_code = record { major = 5; subject = 7; detail = 0 };
    message = [];
  };
}

-- The pipeline refuses the first message that it is asked to start.
abbrev first_refused : List Call → Text → Option Error
first_refused (took d ∷ []) from = some (plain (text "no"))
first_refused calls from = none

abbrev patient : Endpoint
patient = record {
  packages = ascii;
  wire = wire;
  auth_always_required = false;
  defer_server_reject = true;
  max_received = 1;
  max_logged_rcpt_errors = 5;
  message_id = λ calls. ok (text "1");
  take_limits = λ calls d. none;
  start_answer = λ calls from. none;
  rcpt_answer = λ calls to. none;
  body_answer = λ calls. some (plain (text "full"));
  commit_answer = λ calls. none;
}

abbrev eager : Endpoint
eager = record patient { defer_server_reject = false }

abbrev refusing : Endpoint
refusing = record patient { start_answer = first_refused }

abbrev user : Session
user = fresh_session []

-- The domain that was taken is not the one that is released: the argument of MAIL is kept as it is. So
-- a slot is released that is not held.
leaked : held (reset (mail eager (text "me@A.org") false user).0).calls ≡ none
unfolding mail start_delivery clean_domain split sender_domain clean_session text_eq reset
leaked = refl

abbrev after_refusal : Session
after_refusal = (rcpt refusing (text "you@b.org") (mail refusing (text "me@a.org") false user).0).0

abbrev next_message : Replied
next_message =
    rcpt refusing (text "you@b.org") (mail refusing (text "me@a.org") false (reset after_refusal)).0

-- The error of the first message is the answer to the second one, which is not even started.
stale : next_message.1 ≡ after_refusal.delivery_err
unfolding mail rcpt reset start_delivery clean_domain split sender_domain clean_session text_eq
    is_ascii wrap_err
stale = refl

not_started : next_message.0.calls ≡ released (text "a.org") ∷ took (text "a.org") ∷ []
unfolding mail rcpt reset start_delivery clean_domain split sender_domain clean_session text_eq
    is_ascii wrap_err
not_started = refl

abbrev mailed : Session
mailed = (mail patient (text "me@A.org") false user).0

abbrev addressed : Session
addressed = (rcpt patient (text "you@b.org") mailed).0

mailed-Steps : Steps patient user mailed
mailed-Steps = go user user mailed (stay user) (mail_step user (text "me@A.org") false refl)

addressed-Steps : Steps patient user addressed
addressed-Steps = go user mailed addressed mailed-Steps (rcpt_step mailed (text "you@b.org"))

Steps-Ordered_example :
    (phase_of mailed.calls ≡ phase_if mailed.delivery)
    × ((to : Text) (prepared : Result Error (List Text))
        → (rcpt patient to mailed).1 ≡ none
        → (smtp_data patient prepared (rcpt patient to mailed).0 ≢ none)
          × (lmtp_data patient prepared (rcpt patient to mailed).0 ≢ none))
    × ((reset mailed).delivery ≡ false)
    × ((logout mailed).delivery ≡ false)
    × ((keys : List Text)
        → Ends (smtp_data patient (ok keys) mailed) × Ends (lmtp_data patient (ok keys) mailed))
Steps-Ordered_example = Steps-Ordered patient [] mailed-Steps

Steps-Balanced_example : Balanced addressed
Steps-Balanced_example = Steps-Balanced patient [] refl addressed-Steps

-- A body that is refused, or a message in a loop, leaves a delivery with no commit and no abort.
calls_after : Option Replied → List Call
calls_after none = []
calls_after (some r) = r.0.calls

refused_body :
    calls_after (smtp_data patient (ok []) addressed)
    ≡ forgot
      ∷ released (text "a.org")
      ∷ body_sent false
      ∷ offered_to (text "you@b.org")
      ∷ began (text "me@a.org")
      ∷ took (text "a.org")
      ∷ []
unfolding mail rcpt smtp_data start_delivery clean_domain split sender_domain clean_session text_eq
    is_ascii wrap_err calls_after
refused_body = refl

looping :
    calls_after (smtp_data patient (ok (text "Received" ∷ text "Received" ∷ [])) addressed)
    ≡ forgot
      ∷ released (text "a.org")
      ∷ loop_found
      ∷ offered_to (text "you@b.org")
      ∷ began (text "me@a.org")
      ∷ took (text "a.org")
      ∷ []
unfolding mail rcpt smtp_data start_delivery clean_domain split sender_domain clean_session text_eq
    is_ascii wrap_err calls_after
looping = refl
