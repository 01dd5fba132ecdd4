-- ===== src/Endpoint/Session.antt =====
-- internal/endpoint/smtp/session.go: `Session`, and how it lets go of a delivery. Its commands run one
-- after the other, as its mutex makes them.
--
-- What the limits, the pipeline and a delivery answer depends on the calls made before, which the
-- state keeps, the latest one first; `forgot` is not a call but the assignment of nil to
-- `s.delivery`, and `loop_found` the end of a message that is in a loop. The IP address is that of the session and left out of the calls. Logging, metrics,
-- tracing, the rDNS lookup and authentication are left out.
pub mod Commands
use sirr_mesh.Base.{ℕ, Bool, true, false, Option, none, List, [], ◌∷◌, Text, Result, ok, err}
use sirr_mesh.Exterrors.{Error}
use sirr_mesh.Address.Errors.{Err}
use sirr_mesh.Address.Syntax.{split}
use sirr_mesh.Address.Norm.{Packages}
use sirr_mesh.Queue.Retry.{SmtpReply}
use sirr_mesh.Endpoint.Reply.{Wire}

pub data Call : Type 0 where
  -- `TakeMsg` that took, and `ReleaseMsg`, of a sender's domain
  took : Text → Call
  released : Text → Call
  -- `Start` that returned a delivery
  began : Text → Call
  offered_to : Text → Call
  -- `Body`, and whether it succeeded; `BodyNonAtomic` always does
  body_sent : Bool → Call
  commit_called : Call
  abort_called : Call
  forgot : Call
  -- `checkRoutingLoops` found a loop
  loop_found : Call

pub record Endpoint : Type 0 where
  pub packages : Packages
  pub wire : Wire
  pub auth_always_required : Bool
  pub defer_server_reject : Bool
  pub max_received : ℕ
  pub max_logged_rcpt_errors : ℕ
  -- the error of `GenerateMsgID`, or the ID
  pub message_id : List Call → Result Error Text
  pub take_limits : List Call → Text → Option Error
  pub start_answer : List Call → Text → Option Error
  pub rcpt_answer : List Call → Text → Option Error
  pub body_answer : List Call → Option Error
  pub commit_answer : List Call → Option Error

pub record Session : Type 0 where
  pub auth_user : Text
  pub repeated_mail_errs : ℕ
  pub logged_rcpt_errors : ℕ
  pub mail_from : Text
  -- `opts.UTF8`
  pub utf8 : Bool
  -- `msgMeta.ID`
  pub message_id : Text
  -- Is there a delivery?
  pub delivery : Bool
  pub delivery_err : Option SmtpReply
  pub calls : List Call

abbrev pub noted : Call → Session → Session
noted c s = record s { calls = c ∷ s.calls }

abbrev pub fresh_session : Text → Session
fresh_session user = record {
  auth_user = user;
  repeated_mail_errs = 0;
  logged_rcpt_errors = 0;
  mail_from = [];
  utf8 = false;
  message_id = [];
  delivery = false;
  delivery_err = none;
  calls = [];
}

-- The domain of a sender; the null sender has the empty one.
unfoldable pub sender_domain : Text → Result Err Text
unfolding split
sender_domain [] = ok []
sender_domain (c ∷ from) = elim (split (c ∷ from)) [ ok (mbox, domain) ↦ ok domain | err e ↦ err e ]

release_domain : Result Err Text → Session → Session
release_domain (ok domain) s = noted (released domain) s
release_domain (err e) s = s

-- `releaseLimits`
unfoldable pub release_limits : Session → Session
unfolding release_domain sender_domain
release_limits s = release_domain (sender_domain s.mail_from) s

-- What `cleanSession` does behind `releaseLimits`.
abbrev pub forget : Session → Session
forget s = record s {
  mail_from = [];
  utf8 = false;
  message_id = [];
  delivery = false;
  delivery_err = none;
  calls = forgot ∷ s.calls;
}

-- `cleanSession`
unfoldable pub clean_session : Session → Session
unfolding release_limits
clean_session s = forget (release_limits s)

-- `abort`
unfoldable pub abort_session : Session → Session
unfolding clean_session
abort_session s = clean_session (noted abort_called s)

pub abort_if : Bool → Session → Session
unfolding abort_session
abort_if true s = abort_session s
abort_if false s = s

-- `Reset`
unfoldable pub reset : Session → Session
unfolding abort_if
reset s = abort_if s.delivery s

-- `Logout`
unfoldable pub logout : Session → Session
unfolding abort_if
logout s = abort_if s.delivery s
