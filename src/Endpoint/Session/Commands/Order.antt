-- ===== src/Endpoint/Session/Commands/Order.antt =====
-- A session calls its deliveries in order.
use sirr_mesh.Base.{
  ◌≡◌, ◌≢◌, refl, sym, subst, ◌∙◌, ap, inl, inr, Bool, true, false, not, ◌&&◌, Option, none, some,
  List, arith, Bool-cases, ltb, Text, Result, ok, err,
}
use sirr_mesh.Exterrors.{Error}
use sirr_mesh.Address.Errors.{Err}
use sirr_mesh.Address.Syntax.{is_ascii}
use sirr_mesh.Address.Norm.{clean_domain}
use sirr_mesh.Queue.Retry.{SmtpReply}
use sirr_mesh.Endpoint.Session.{
  offered_to, body_sent, commit_called, forgot, loop_found, Endpoint, Session, noted, fresh_session,
  clean_session, abort_session, abort_if, reset, logout,
}
use sirr_mesh.Endpoint.Session.Commands.{
  Begun, start_delivery, Replied, count_logged, rcpt_result, with_rcpt, rcpt_now, rcpt_begun,
  rcpt_first, rcpt_if, rcpt, loops, data_failed, committing, sent_body, deliver_data, with_body,
  data_if, smtp_data, lmtp_data,
}
use sirr_mesh.Endpoint.Session.Commands.Phases.{
  Phase, no_delivery, receiving, finished, move, phase_of, phase_if, Phased, Starts,
  clean_session-Phased, abort_if-Phased, start_delivery-Starts, mail-Phased,
}
use sirr_mesh.Endpoint.Session.Commands.Steps.{
  Step, mail_step, rcpt_step, data_step, lmtp_step, reset_step, logout_step, Steps, stay, go,
}

-- A recipient that is accepted leaves a delivery.
abbrev pub Accepts : Replied → Type 0
Accepts (s, none) = Phased s × (s.delivery ≡ true)
Accepts (s, some reply) = Phased s

count_logged-Phased : (ep : Endpoint) (s : Session) → Phased s → Phased (count_logged ep s)
unfolding count_logged
count_logged-Phased ep s h =
    elim (Bool-cases (ltb s.logged_rcpt_errors ep.max_logged_rcpt_errors)) [
      | inl e ↦ rw e h
      | inr e ↦ rw e h
    ]

rcpt_result-Accepts :
    (ep : Endpoint) (s : Session) (o : Option Error)
    → s.delivery ≡ true
    → Phased s
    → Accepts (rcpt_result ep s o)
unfolding rcpt_result
rcpt_result-Accepts ep s none d h = (h, d)
rcpt_result-Accepts ep s (some e) d h = count_logged-Phased ep s h

with_rcpt-Accepts :
    (ep : Endpoint) (to : Text × Option Err) (s : Session)
    → s.delivery ≡ true
    → Phased s
    → Accepts (with_rcpt ep to s)
unfolding with_rcpt rcpt_result
with_rcpt-Accepts ep (to, some e) s d h = count_logged-Phased ep s h
with_rcpt-Accepts ep (to, none) s d h =
    rcpt_result-Accepts ep (noted (offered_to to) s) _ d
      (ap (move (offered_to to)) (h ∙ ap phase_if d) ∙ ap phase_if (sym d))

rcpt_now-Accepts :
    (ep : Endpoint) (to : Text) (s : Session)
    → s.delivery ≡ true
    → Phased s
    → Accepts (rcpt_now ep to s)
unfolding rcpt_now rcpt_result
rcpt_now-Accepts ep to s d h = elim (Bool-cases (not (is_ascii to) && not s.utf8)) [
  | inl e ↦ rw e (count_logged-Phased ep s h)
  | inr e ↦ rw e (with_rcpt-Accepts ep (clean_domain ep.packages to) s d h)
]

rcpt_begun-Accepts :
    (ep : Endpoint) (to : Text) (b : Begun) → Starts b → Accepts (rcpt_begun ep to b)
unfolding rcpt_begun
rcpt_begun-Accepts ep to (s, some failed) h = h.0
rcpt_begun-Accepts ep to (s, none) h = rcpt_now-Accepts ep to s h.1 h.0

rcpt_first-Accepts :
    (ep : Endpoint) (to : Text) (o : Option SmtpReply) (s : Session)
    → s.delivery ≡ false
    → Phased s
    → Accepts (rcpt_first ep to o s)
unfolding rcpt_first
rcpt_first-Accepts ep to (some reply) s d h = h
rcpt_first-Accepts ep to none s d h =
    rcpt_begun-Accepts ep to (start_delivery ep s.mail_from s.utf8 s)
      (start_delivery-Starts ep s.mail_from s.utf8 s d h)

rcpt_if-Accepts :
    (ep : Endpoint) (to : Text) (b : Bool) (s : Session)
    → s.delivery ≡ b
    → Phased s
    → Accepts (rcpt_if ep to b s)
unfolding rcpt_if
rcpt_if-Accepts ep to true s d h = rcpt_now-Accepts ep to s d h
rcpt_if-Accepts ep to false s d h = rcpt_first-Accepts ep to s.delivery_err s d h

pub rcpt-Accepts : (ep : Endpoint) (to : Text) (s : Session) → Phased s → Accepts (rcpt ep to s)
unfolding rcpt
rcpt-Accepts ep to s h = rcpt_if-Accepts ep to s.delivery s refl h

data_failed-Phased :
    (ep : Endpoint) (s : Session) (e : Error) {p : Phase}
    → phase_of s.calls ≡ p
    → move forgot p ≡ no_delivery
    → Phased (data_failed ep s e).0
unfolding data_failed
data_failed-Phased ep s e h k = clean_session-Phased s h k

committing-Phased :
    (ep : Endpoint) (s : Session) (o : Option Error)
    → phase_of s.calls ≡ finished
    → Phased (committing ep s o).0
unfolding committing data_failed
committing-Phased ep s (some e) h = clean_session-Phased s h refl
committing-Phased ep s none h = clean_session-Phased s h refl

sent_body-Phased :
    (ep : Endpoint) (s : Session) (o : Option Error)
    → phase_of s.calls ≡ receiving
    → Phased (sent_body ep s o).0
unfolding sent_body
sent_body-Phased ep s (some e) h =
    data_failed-Phased ep (noted (body_sent false) s) e (ap (move (body_sent false)) h) refl
sent_body-Phased ep s none h =
    committing-Phased ep (noted commit_called (noted (body_sent true) s)) _
      (ap (λ q. move commit_called (move (body_sent true) q)) h)

deliver_data-Phased :
    (ep : Endpoint) (lmtp : Bool) (s : Session) (o : Option Error)
    → phase_of s.calls ≡ receiving
    → Phased (deliver_data ep lmtp s o).0
unfolding deliver_data
deliver_data-Phased ep lmtp s (some e) h =
    data_failed-Phased ep (noted loop_found s) e (ap (move loop_found) h) refl
deliver_data-Phased ep true s none h = sent_body-Phased ep s none h
deliver_data-Phased ep false s none h = sent_body-Phased ep s (ep.body_answer s.calls) h

with_body-Phased :
    (ep : Endpoint) (lmtp : Bool) (o : Result Error (List Text)) (s : Session)
    → s.delivery ≡ true
    → Phased s
    → Phased (with_body ep lmtp o s).0
unfolding with_body
with_body-Phased ep lmtp (err e) s d h = h
with_body-Phased ep lmtp (ok keys) s d h =
    deliver_data-Phased ep lmtp s (loops ep keys) (h ∙ ap phase_if d)

data_if-Phased :
    (ep : Endpoint) (lmtp : Bool) (o : Result Error (List Text)) (b : Bool) (s : Session)
    (r : Replied)
    → s.delivery ≡ b
    → data_if ep lmtp o b s ≡ some r
    → Phased s
    → Phased r.0
unfolding data_if
data_if-Phased ep lmtp o false s r d e h = absurd (ground (arith, e))
data_if-Phased ep lmtp o true s r d e h =
    subst Phased (ap first_of e) (with_body-Phased ep lmtp o s d h)
  where
    first_of : Option Replied → Session
    first_of none = s
    first_of (some x) = x.0

Accepts-Phased : (r : Replied) → Accepts r → Phased r.0
Accepts-Phased (s, none) h = h.0
Accepts-Phased (s, some reply) h = h

Step-Phased : (ep : Endpoint) {s t : Session} → Step ep s t → Phased s → Phased t
unfolding reset logout smtp_data lmtp_data
Step-Phased ep (mail_step s from utf8 d) h = mail-Phased ep from utf8 s d h
Step-Phased ep (rcpt_step s to) h = Accepts-Phased (rcpt ep to s) (rcpt-Accepts ep to s h)
Step-Phased ep (data_step s o r e) h = data_if-Phased ep false o s.delivery s r refl e h
Step-Phased ep (lmtp_step s o r e) h = data_if-Phased ep true o s.delivery s r refl e h
Step-Phased ep (reset_step s) h = abort_if-Phased s.delivery s refl h
Step-Phased ep (logout_step s) h = abort_if-Phased s.delivery s refl h

Steps-Phased : (ep : Endpoint) {s t : Session} → Steps ep s t → Phased s → Phased t
Steps-Phased ep (stay s) h = h
Steps-Phased ep (go s t u before step) h = Step-Phased ep step (Steps-Phased ep before h)

data_if-ne-none :
    (ep : Endpoint) (lmtp : Bool) (o : Result Error (List Text)) (b : Bool) (s : Session)
    → b ≡ true
    → data_if ep lmtp o b s ≢ none
unfolding data_if
data_if-ne-none ep lmtp o true s h e = absurd (ground (arith, e))
data_if-ne-none ep lmtp o false s h e = absurd (ground (arith, h))

Accepts-ne-none :
    (ep : Endpoint) (lmtp : Bool) (o : Result Error (List Text)) (r : Replied)
    → Accepts r
    → r.1 ≡ none
    → data_if ep lmtp o r.0.delivery r.0 ≢ none
unfolding data_if
Accepts-ne-none ep lmtp o (s, none) h fine e = data_if-ne-none ep lmtp o s.delivery s h.1 e
Accepts-ne-none ep lmtp o (s, some reply) h fine e = absurd (ground (arith, fine))

abort_if-ended : (b : Bool) (s : Session) → b ≡ s.delivery → (abort_if b s).delivery ≡ false
unfolding abort_if abort_session clean_session
abort_if-ended true s h = refl
abort_if-ended false s h = sym h

data_failed-ended :
    (ep : Endpoint) (s : Session) (e : Error) → (data_failed ep s e).0.delivery ≡ false
unfolding data_failed clean_session
data_failed-ended ep s e = refl

committing-ended :
    (ep : Endpoint) (s : Session) (o : Option Error) → (committing ep s o).0.delivery ≡ false
unfolding committing clean_session
committing-ended ep s (some e) = data_failed-ended ep s e
committing-ended ep s none = refl

sent_body-ended :
    (ep : Endpoint) (s : Session) (o : Option Error) → (sent_body ep s o).0.delivery ≡ false
unfolding sent_body
sent_body-ended ep s (some e) = data_failed-ended ep (noted (body_sent false) s) e
sent_body-ended ep s none = committing-ended ep (noted commit_called (noted (body_sent true) s)) _

deliver_data-ended :
    (ep : Endpoint) (lmtp : Bool) (s : Session) (o : Option Error)
    → (deliver_data ep lmtp s o).0.delivery ≡ false
unfolding deliver_data
deliver_data-ended ep lmtp s (some e) = data_failed-ended ep (noted loop_found s) e
deliver_data-ended ep true s none = sent_body-ended ep s none
deliver_data-ended ep false s none = sent_body-ended ep s (ep.body_answer s.calls)

-- A data command whose message could be read ends the delivery.
abbrev pub Ends : Option Replied → Type 0
Ends none = Unit {0}
Ends (some r) = r.0.delivery ≡ false

data_if-Ends :
    (ep : Endpoint) (lmtp : Bool) (keys : List Text) (b : Bool) (s : Session)
    → Ends (data_if ep lmtp (ok keys) b s)
unfolding data_if with_body
data_if-Ends ep lmtp keys false s = tt
data_if-Ends ep lmtp keys true s = deliver_data-ended ep lmtp s (loops ep keys)

-- For any commands in any order, but MAIL only while there is no delivery, and whatever the limits, the
-- pipeline and the deliveries answer, a session calls each delivery in order: recipients, then the
-- body, then a commit if the body was taken. Without a body it lets go of a delivery only after an
-- abort, or after the data command has found a mail loop; otherwise only after a body that was refused
-- or after the commit. It starts the next one only when it has let go of this one. When a recipient is
-- accepted, the data command does not panic. After RSET and QUIT there is no delivery, and there is
-- none after a data command that could read the message.
pub Steps-Ordered :
    (ep : Endpoint) (user : Text) {t : Session}
    → Steps ep (fresh_session user) t
    → (phase_of t.calls ≡ phase_if t.delivery)
      × ((to : Text) (prepared : Result Error (List Text))
          → (rcpt ep to t).1 ≡ none
          → (smtp_data ep prepared (rcpt ep to t).0 ≢ none)
            × (lmtp_data ep prepared (rcpt ep to t).0 ≢ none))
      × ((reset t).delivery ≡ false)
      × ((logout t).delivery ≡ false)
      × ((keys : List Text) → Ends (smtp_data ep (ok keys) t) × Ends (lmtp_data ep (ok keys) t))
unfolding smtp_data lmtp_data reset logout
Steps-Ordered ep user {t} steps =
    let h = Steps-Phased ep steps refl in
    (
      h,
      λ to prepared fine. (
        Accepts-ne-none ep false prepared (rcpt ep to t) (rcpt-Accepts ep to t h) fine,
        Accepts-ne-none ep true prepared (rcpt ep to t) (rcpt-Accepts ep to t h) fine,
      ),
      abort_if-ended t.delivery t refl,
      abort_if-ended t.delivery t refl,
      λ keys. (data_if-Ends ep false keys t.delivery t, data_if-Ends ep true keys t.delivery t),
    )
