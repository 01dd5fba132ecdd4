-- ===== src/Endpoint/Session/Commands.antt =====
-- session.go: `Mail`, `Rcpt`, `Data` and `LMTPData`, with `startDelivery` and `checkRoutingLoops`. The
-- number of fields is left out of the text of the latter's error.
pub mod Steps
pub mod Phases
pub mod Order
pub mod Balance
pub mod Limits
mod Tests
use sirr_mesh.Base.{
  ℕ, ◌+◌, Bool, true, false, not, ◌&&◌, Option, none, some, List, [], ◌∷◌, if◌then◌else◌, ltb, Text,
  text, text_eq, Result, ok, err,
}
use sirr_mesh.Exterrors.{Error, smtp_leaf, plain}
use sirr_mesh.Address.Errors.{Err}
use sirr_mesh.Address.Syntax.{is_ascii}
use sirr_mesh.Address.Norm.{clean_domain}
use sirr_mesh.Queue.Retry.{SmtpReply}
use sirr_mesh.Endpoint.Reply.{wrap_err}
use sirr_mesh.Endpoint.Session.{
  took, released, began, offered_to, body_sent, commit_called, loop_found, Endpoint, Session, noted,
  sender_domain, clean_session,
}

abbrev failure_reply : ℕ → ℕ → ℕ → Text → Error
failure_reply c subject detail msg = smtp_leaf (record {
  code = c;
  enhanced_code = record { major = 5; subject = subject; detail = detail };
  message = msg;
  check_name = [];
  target_name = [];
  modifier_name = [];
  reason = [];
  misc = [];
})

-- Is there a rune above 128?
wide : Text → Bool
wide [] = false
wide (ch ∷ from) = if ltb 128 ch then true else wide from

-- The results of the steps of `startDelivery`: the state, and the ID and the error of a failure.
abbrev pub Begun : Type 0
Begun = Session × Option (Text × Error)

began_with : Text → Text → Text → Option Error → Session → Begun
began_with id from domain (some e) s = (noted (released domain) s, some (id, e))
began_with id from domain none s =
    (record (noted (began from) s) { message_id = id; mail_from = from; delivery = true }, none)

taken : Endpoint → Text → Text → Text → Option Error → Session → Begun
unfolding began_with
taken ep id from domain (some e) s = (s, some ([], e))
taken ep id from domain none s =
    let t = noted (took domain) s in began_with id from domain (ep.start_answer t.calls from) t

-- The error of `Split` is returned as it is; its text is left out.
with_domain : Endpoint → Text → Text → Result Err Text → Session → Begun
unfolding taken
with_domain ep id from (err e) s = (s, some ([], plain []))
with_domain ep id from (ok domain) s = taken ep id from domain (ep.take_limits s.calls domain) s

with_sender : Endpoint → Text → Text × Option Err → Session → Begun
unfolding with_domain sender_domain
with_sender ep id (from, some e) s =
    (s, some ([], failure_reply 553 1 7 (text "Unable to normalize the sender address")))
with_sender ep id (from, none) s = with_domain ep id from (sender_domain from) s

with_id_of : Endpoint → Text → Bool → Result Error Text → Session → Begun
unfolding with_sender clean_domain wide
with_id_of ep from utf8 (err e) s = (s, some ([], e))
with_id_of ep from utf8 (ok id) s =
    if not utf8 && wide from
    then (s, some ([], failure_reply 550 6 7 (text "SMTPUTF8 is required for non-ASCII senders")))
    else with_sender ep id (clean_domain ep.packages from) s

-- `startDelivery`
unfoldable pub start_delivery : Endpoint → Text → Bool → Session → Begun
unfolding with_id_of
start_delivery ep from utf8 s = with_id_of ep from utf8 (ep.message_id s.calls) s

-- A command's state and its reply, none if it succeeds.
abbrev pub Replied : Type 0
Replied = Session × Option SmtpReply

keep_mail : Text → Bool → Session → Session
keep_mail from utf8 s = record s { mail_from = from; utf8 = utf8 }

mail_begun : Endpoint → Text → Bool → Begun → Replied
unfolding keep_mail wrap_err
mail_begun ep from utf8 (s, some (id, e)) = (s, some (wrap_err ep.wire id (not utf8) e))
mail_begun ep from utf8 (s, none) = (keep_mail from utf8 s, none)

mail_now : Endpoint → Bool → Text → Bool → Session → Replied
unfolding mail_begun start_delivery keep_mail
mail_now ep true from utf8 s = (keep_mail from utf8 s, none)
mail_now ep false from utf8 s = mail_begun ep from utf8 (start_delivery ep from utf8 s)

abbrev pub anonymous : Text → Bool
anonymous [] = true
anonymous _ = false

-- `Mail`
unfoldable pub mail : Endpoint → Text → Bool → Session → Replied
unfolding mail_now
mail ep from utf8 s =
    if ep.auth_always_required && anonymous s.auth_user
    then (s, some ep.wire.auth_required)
    else mail_now ep ep.defer_server_reject from utf8 s

-- `RCPT error` is logged so many times.
count_logged : Endpoint → Session → Session
count_logged ep s =
    if ltb s.logged_rcpt_errors ep.max_logged_rcpt_errors
    then record s { logged_rcpt_errors = s.logged_rcpt_errors + 1 }
    else s

rcpt_result : Endpoint → Session → Option Error → Replied
unfolding count_logged wrap_err
rcpt_result ep s none = (s, none)
rcpt_result ep s (some e) = (count_logged ep s, some (wrap_err ep.wire s.message_id (not s.utf8) e))

with_rcpt : Endpoint → Text × Option Err → Session → Replied
unfolding rcpt_result
with_rcpt ep (to, some e) s =
    rcpt_result ep s
      (some (failure_reply 501 1 2 (text "Unable to normalize the recipient address")))
with_rcpt ep (to, none) s = rcpt_result ep (noted (offered_to to) s) (ep.rcpt_answer s.calls to)

-- `rcpt`, and what `Rcpt` does with its error.
rcpt_now : Endpoint → Text → Session → Replied
unfolding rcpt_result with_rcpt clean_domain is_ascii
rcpt_now ep to s =
    if not (is_ascii to) && not s.utf8
    then rcpt_result ep s
        (some (failure_reply 553 6 7 (text "SMTPUTF8 is required for non-ASCII recipients")))
    else with_rcpt ep (clean_domain ep.packages to) s

rcpt_begun : Endpoint → Text → Begun → Replied
unfolding rcpt_now wrap_err
rcpt_begun ep to (s, some (id, e)) =
    let reply = wrap_err ep.wire id (not s.utf8) e in
    (record s { delivery_err = some reply }, some reply)
rcpt_begun ep to (s, none) = rcpt_now ep to s

rcpt_first : Endpoint → Text → Option SmtpReply → Session → Replied
unfolding rcpt_begun start_delivery
rcpt_first ep to (some reply) s =
    (record s { repeated_mail_errs = s.repeated_mail_errs + 1 }, some reply)
rcpt_first ep to none s = rcpt_begun ep to (start_delivery ep s.mail_from s.utf8 s)

rcpt_if : Endpoint → Text → Bool → Session → Replied
unfolding rcpt_first rcpt_now
rcpt_if ep to true s = rcpt_now ep to s
rcpt_if ep to false s = rcpt_first ep to s.delivery_err s

-- `Rcpt`
unfoldable pub rcpt : Endpoint → Text → Session → Replied
unfolding rcpt_if
rcpt ep to s = rcpt_if ep to s.delivery s

-- `FieldsByKey("Received")`, of the keys of the header.
received_count : List Text → ℕ
unfolding text_eq
received_count [] = 0
received_count (key ∷ keys) =
    let rest = received_count keys in if text_eq key (text "Received") then rest + 1 else rest

loops : Endpoint → List Text → Option Error
unfolding received_count
loops ep keys =
    if ltb ep.max_received (received_count keys)
    then some
        (failure_reply 554 4 6 (text "Too many Received header fields, possible forwarding loop"))
    else none

-- `wrapErr`, and then the deferred `cleanSession`.
data_failed : Endpoint → Session → Error → Replied
unfolding wrap_err clean_session
data_failed ep s e = (clean_session s, some (wrap_err ep.wire s.message_id (not s.utf8) e))

committing : Endpoint → Session → Option Error → Replied
unfolding data_failed clean_session
committing ep s (some e) = data_failed ep s e
committing ep s none = (clean_session s, none)

sent_body : Endpoint → Session → Option Error → Replied
unfolding committing data_failed
sent_body ep s (some e) = data_failed ep (noted (body_sent false) s) e
sent_body ep s none =
    let t = noted (body_sent true) s in
    committing ep (noted commit_called t) (ep.commit_answer t.calls)

-- The two orders of calling the delivery; `BodyNonAtomic` gives no error.
deliver_data : Endpoint → Bool → Session → Option Error → Replied
unfolding data_failed sent_body
deliver_data ep lmtp s (some e) = data_failed ep (noted loop_found s) e
deliver_data ep true s none = sent_body ep s none
deliver_data ep false s none = sent_body ep s (ep.body_answer s.calls)

with_body : Endpoint → Bool → Result Error (List Text) → Session → Replied
unfolding deliver_data loops wrap_err
with_body ep lmtp (err e) s = (s, some (wrap_err ep.wire s.message_id (not s.utf8) e))
with_body ep lmtp (ok keys) s = deliver_data ep lmtp s (loops ep keys)

-- Without a delivery, the source panics.
data_if : Endpoint → Bool → Result Error (List Text) → Bool → Session → Option Replied
unfolding with_body
data_if ep lmtp prepared false s = none
data_if ep lmtp prepared true s = some (with_body ep lmtp prepared s)

-- `Data`, given what `prepareBody` returns: an error or the keys of the header.
unfoldable pub smtp_data : Endpoint → Result Error (List Text) → Session → Option Replied
unfolding data_if
smtp_data ep prepared s = data_if ep false prepared s.delivery s

-- `LMTPData`
unfoldable pub lmtp_data : Endpoint → Result Error (List Text) → Session → Option Replied
unfolding data_if
lmtp_data ep prepared s = data_if ep true prepared s.delivery s
