-- ===== src/Endpoint/Session/Commands/Limits.antt =====
-- A session gives back what it took.
use sirr_mesh.Base.{
  ◌+◌, ◌≡◌, refl, sym, subst, ap, inl, inr, Bool, true, false, not, ◌&&◌, Option, none, some, List,
  ◌∷◌, arith, Bool-cases, ltb, Text, Result, ok, err,
}
use sirr_mesh.Exterrors.{Error}
use sirr_mesh.Address.Errors.{Err}
use sirr_mesh.Address.Syntax.{is_ascii}
use sirr_mesh.Address.Norm.{clean_domain}
use sirr_mesh.Queue.Retry.{SmtpReply}
use sirr_mesh.Endpoint.Reply.{wrap_err}
use sirr_mesh.Endpoint.Session.{
  offered_to, body_sent, commit_called, loop_found, Endpoint, Session, noted, fresh_session, reset,
  logout,
}
use sirr_mesh.Endpoint.Session.Commands.{
  Begun, start_delivery, Replied, keep_mail, mail_now, anonymous, mail, count_logged, rcpt_result,
  with_rcpt, rcpt_now, rcpt_begun, rcpt_first, rcpt_if, rcpt, loops, data_failed, committing,
  sent_body, deliver_data, with_body, data_if, smtp_data, lmtp_data,
}
use sirr_mesh.Endpoint.Session.Commands.Balance.{
  Holds, Balanced, clean_session-Balanced, abort_if-Balanced, Begins, start_delivery-Begins,
}
use sirr_mesh.Endpoint.Session.Commands.Steps.{
  Step, mail_step, rcpt_step, data_step, lmtp_step, reset_step, logout_step, Steps, stay, go,
}

-- What a state says of its own delivery.
kept_none : (s : Session) → s.delivery ≡ false → Holds false s → Balanced s
kept_none s d h = subst (λ b. Holds b s) (sym d) h

mail_now-Balanced :
    (ep : Endpoint) (deferred : Bool) (from : Text) (utf8 : Bool) (s : Session)
    → deferred ≡ true
    → s.delivery ≡ false
    → Holds false s
    → Balanced (mail_now ep deferred from utf8 s).0
unfolding mail_now keep_mail
mail_now-Balanced ep true from utf8 s e d h = kept_none (keep_mail from utf8 s) d h
mail_now-Balanced ep false from utf8 s e d h = absurd (ground (arith, e))

mail-Balanced :
    (ep : Endpoint) (from : Text) (utf8 : Bool) (s : Session)
    → ep.defer_server_reject ≡ true
    → s.delivery ≡ false
    → Balanced s
    → Balanced (mail ep from utf8 s).0
unfolding mail
mail-Balanced ep from utf8 s deferred d h =
    elim (Bool-cases (ep.auth_always_required && anonymous s.auth_user)) [
      | inl e ↦ rw e h
      | inr e ↦ rw e (
          mail_now-Balanced ep ep.defer_server_reject from utf8 s deferred d
            (subst (λ b. Holds b s) d h))
    ]

kept : (s : Session) → s.delivery ≡ true → Holds true s → Balanced s
kept s d h = subst (λ b. Holds b s) (sym d) h

count_logged-Holds :
    (ep : Endpoint) (s : Session) → s.delivery ≡ true → Holds true s → Balanced (count_logged ep s)
unfolding count_logged
count_logged-Holds ep s d h =
    elim (Bool-cases (ltb s.logged_rcpt_errors ep.max_logged_rcpt_errors)) [
      | inl e ↦ rw e (kept (record s { logged_rcpt_errors = s.logged_rcpt_errors + 1 }) d h)
      | inr e ↦ rw e (kept s d h)
    ]

rcpt_result-Balanced :
    (ep : Endpoint) (s : Session) (o : Option Error)
    → s.delivery ≡ true
    → Holds true s
    → Balanced (rcpt_result ep s o).0
unfolding rcpt_result
rcpt_result-Balanced ep s none d h = kept s d h
rcpt_result-Balanced ep s (some e) d h = count_logged-Holds ep s d h

with_rcpt-Balanced :
    (ep : Endpoint) (to : Text × Option Err) (s : Session)
    → s.delivery ≡ true
    → Holds true s
    → Balanced (with_rcpt ep to s).0
unfolding with_rcpt rcpt_result
with_rcpt-Balanced ep (to, some e) s d h = count_logged-Holds ep s d h
with_rcpt-Balanced ep (to, none) s d h =
    rcpt_result-Balanced ep (noted (offered_to to) s) (ep.rcpt_answer s.calls to) d h

rcpt_now-Balanced :
    (ep : Endpoint) (to : Text) (s : Session)
    → s.delivery ≡ true
    → Holds true s
    → Balanced (rcpt_now ep to s).0
unfolding rcpt_now rcpt_result
rcpt_now-Balanced ep to s d h = elim (Bool-cases (not (is_ascii to) && not s.utf8)) [
  | inl e ↦ rw e (count_logged-Holds ep s d h)
  | inr e ↦ rw e (with_rcpt-Balanced ep (clean_domain ep.packages to) s d h)
]

rcpt_begun-Balanced :
    (ep : Endpoint) (to : Text) (b : Begun) → Begins b → Balanced (rcpt_begun ep to b).0
unfolding rcpt_begun
rcpt_begun-Balanced ep to (s, some (id, e)) h =
    kept_none (record s { delivery_err = some (wrap_err ep.wire id (not s.utf8) e) }) h.1 h.0
rcpt_begun-Balanced ep to (s, none) h = rcpt_now-Balanced ep to s h.1 h.0

rcpt_first-Balanced :
    (ep : Endpoint) (to : Text) (o : Option SmtpReply) (s : Session)
    → s.delivery ≡ false
    → Holds false s
    → Balanced (rcpt_first ep to o s).0
unfolding rcpt_first
rcpt_first-Balanced ep to (some reply) s d h =
    kept_none (record s { repeated_mail_errs = s.repeated_mail_errs + 1 }) d h
rcpt_first-Balanced ep to none s d h =
    rcpt_begun-Balanced ep to (start_delivery ep s.mail_from s.utf8 s)
      (start_delivery-Begins ep s.mail_from s.utf8 s d h)

rcpt_if-Balanced :
    (ep : Endpoint) (to : Text) (b : Bool) (s : Session)
    → s.delivery ≡ b
    → Holds b s
    → Balanced (rcpt_if ep to b s).0
unfolding rcpt_if
rcpt_if-Balanced ep to true s d h = rcpt_now-Balanced ep to s d h
rcpt_if-Balanced ep to false s d h = rcpt_first-Balanced ep to s.delivery_err s d h

rcpt-Balanced : (ep : Endpoint) (to : Text) (s : Session) → Balanced s → Balanced (rcpt ep to s).0
unfolding rcpt
rcpt-Balanced ep to s h = rcpt_if-Balanced ep to s.delivery s refl h

-- The calls of a delivery change nothing that is held.
data_failed-Balanced :
    (ep : Endpoint) (s : Session) (e : Error) → Holds true s → Balanced (data_failed ep s e).0
unfolding data_failed
data_failed-Balanced ep s e h = clean_session-Balanced s h

committing-Balanced :
    (ep : Endpoint) (s : Session) (o : Option Error) → Holds true s → Balanced (committing ep s o).0
unfolding committing
committing-Balanced ep s (some e) h = data_failed-Balanced ep s e h
committing-Balanced ep s none h = clean_session-Balanced s h

sent_body-Balanced :
    (ep : Endpoint) (s : Session) (o : Option Error) → Holds true s → Balanced (sent_body ep s o).0
unfolding sent_body
sent_body-Balanced ep s (some e) h = data_failed-Balanced ep (noted (body_sent false) s) e h
sent_body-Balanced ep s none h =
    committing-Balanced ep (noted commit_called (noted (body_sent true) s))
      (ep.commit_answer (body_sent true ∷ s.calls)) h

deliver_data-Balanced :
    (ep : Endpoint) (lmtp : Bool) (s : Session) (o : Option Error)
    → Holds true s
    → Balanced (deliver_data ep lmtp s o).0
unfolding deliver_data
deliver_data-Balanced ep lmtp s (some e) h = data_failed-Balanced ep (noted loop_found s) e h
deliver_data-Balanced ep true s none h = sent_body-Balanced ep s none h
deliver_data-Balanced ep false s none h = sent_body-Balanced ep s (ep.body_answer s.calls) h

with_body-Balanced :
    (ep : Endpoint) (lmtp : Bool) (o : Result Error (List Text)) (s : Session)
    → s.delivery ≡ true
    → Holds true s
    → Balanced (with_body ep lmtp o s).0
unfolding with_body
with_body-Balanced ep lmtp (err e) s d h = kept s d h
with_body-Balanced ep lmtp (ok keys) s d h = deliver_data-Balanced ep lmtp s (loops ep keys) h

state_or : Session → Option Replied → Session
state_or s none = s
state_or s (some r) = r.0

data_if-Balanced :
    (ep : Endpoint) (lmtp : Bool) (o : Result Error (List Text)) (b : Bool) (s : Session)
    (r : Replied)
    → s.delivery ≡ b
    → data_if ep lmtp o b s ≡ some r
    → Holds b s
    → Balanced r.0
unfolding data_if state_or
data_if-Balanced ep lmtp o false s r d e h = absurd (ground (arith, e))
data_if-Balanced ep lmtp o true s r d e h =
    subst Balanced (ap (state_or s) e) (with_body-Balanced ep lmtp o s d h)

Step-Balanced :
    (ep : Endpoint) {s t : Session}
    → ep.defer_server_reject ≡ true
    → Step ep s t
    → Balanced s
    → Balanced t
unfolding reset logout smtp_data lmtp_data
Step-Balanced ep deferred (mail_step s from utf8 d) h = mail-Balanced ep from utf8 s deferred d h
Step-Balanced ep deferred (rcpt_step s to) h = rcpt-Balanced ep to s h
Step-Balanced ep deferred (data_step s o r e) h =
    data_if-Balanced ep false o s.delivery s r refl e h
Step-Balanced ep deferred (lmtp_step s o r e) h = data_if-Balanced ep true o s.delivery s r refl e h
Step-Balanced ep deferred (reset_step s) h = abort_if-Balanced s.delivery s refl h
Step-Balanced ep deferred (logout_step s) h = abort_if-Balanced s.delivery s refl h

-- At an endpoint that defers its answer to MAIL, and for any commands in any order, but MAIL only while
-- there is no delivery, a session holds of the limits exactly the slot that it took for the domain of
-- the sender of its delivery, and none when it has no delivery, whatever fails. No slot was released
-- that was not held at that time.
pub Steps-Balanced :
    (ep : Endpoint) (user : Text) {t : Session}
    → ep.defer_server_reject ≡ true
    → Steps ep (fresh_session user) t
    → Balanced t
Steps-Balanced ep user deferred (stay s) = refl
Steps-Balanced ep user deferred (go s t u before step) =
    Step-Balanced ep deferred step (Steps-Balanced ep user deferred before)
