-- ===== src/Endpoint/Session/Commands/Phases.antt =====
-- The order in which a delivery is called.
use sirr_mesh.Base.{
  ◌≡◌, refl, sym, ◌∙◌, ap, inl, inr, Bool, true, false, not, ◌&&◌, Option, none, some, List, [],
  ◌∷◌, Bool-cases, Text, Result, ok, err,
}
use sirr_mesh.Exterrors.{Error}
use sirr_mesh.Address.Errors.{Err}
use sirr_mesh.Address.Norm.{clean_domain}
use sirr_mesh.Endpoint.Session.{
  Call, took, began, offered_to, body_sent, commit_called, abort_called, forgot, loop_found,
  Endpoint, Session, noted, sender_domain, release_domain, release_limits, clean_session,
  abort_session, abort_if,
}
use sirr_mesh.Endpoint.Session.Commands.{
  Begun, began_with, taken, with_domain, with_sender, with_id_of, wide, start_delivery, keep_mail,
  mail_begun, mail_now, anonymous, mail,
}

pub data Phase : Type 0 where
  no_delivery : Phase
  receiving : Phase
  has_body : Phase
  finished : Phase
  out_of_order : Phase

-- `Start`, recipients, then the body and a commit, or an abort; a body that fails ends the delivery,
-- and so does a mail loop that the data command finds. A delivery is let go of only then.
abbrev pub move : Call → Phase → Phase
move (began from) no_delivery = receiving
move (began from) _ = out_of_order
move (offered_to to) receiving = receiving
move (offered_to to) _ = out_of_order
move (body_sent true) receiving = has_body
move (body_sent false) receiving = finished
move (body_sent b) _ = out_of_order
move commit_called has_body = finished
move commit_called _ = out_of_order
move abort_called receiving = finished
move abort_called _ = out_of_order
move loop_found receiving = finished
move loop_found _ = out_of_order
move forgot finished = no_delivery
move forgot _ = out_of_order
move _ p = p

abbrev pub phase_of : List Call → Phase
phase_of [] = no_delivery
phase_of (c ∷ cs) = move c (phase_of cs)

abbrev pub phase_if : Bool → Phase
phase_if true = receiving
phase_if false = no_delivery

-- The delivery that the session holds is one that takes recipients.
abbrev pub Phased : Session → Type 0
Phased s = phase_of s.calls ≡ phase_if s.delivery

release_domain-phase :
    (d : Result Err Text) (s : Session) → phase_of (release_domain d s).calls ≡ phase_of s.calls
unfolding release_domain
release_domain-phase (ok d) s = refl
release_domain-phase (err e) s = refl

pub clean_session-Phased :
    (s : Session) {p : Phase}
    → phase_of s.calls ≡ p
    → move forgot p ≡ no_delivery
    → Phased (clean_session s)
unfolding clean_session release_limits
clean_session-Phased s h k =
    ap (move forgot) (release_domain-phase (sender_domain s.mail_from) s ∙ h) ∙ k

pub abort_if-Phased : (b : Bool) (s : Session) → b ≡ s.delivery → Phased s → Phased (abort_if b s)
unfolding abort_if abort_session
abort_if-Phased false s e h = h
abort_if-Phased true s e h =
    clean_session-Phased (noted abort_called s) (ap (move abort_called) (h ∙ ap phase_if (sym e)))
      refl

-- A start has made a delivery, or there is none still.
abbrev pub Starts : Begun → Type 0
Starts (s, none) = Phased s × (s.delivery ≡ true)
Starts (s, some failed) = Phased s × (s.delivery ≡ false)

began_with-Starts :
    (id from domain : Text) (o : Option Error) (s : Session)
    → s.delivery ≡ false
    → Phased s
    → Starts (began_with id from domain o s)
unfolding began_with
began_with-Starts id from domain (some e) s d h = (h, d)
began_with-Starts id from domain none s d h = (ap (move (began from)) (h ∙ ap phase_if d), refl)

taken-Starts :
    (ep : Endpoint) (id from domain : Text) (o : Option Error) (s : Session)
    → s.delivery ≡ false
    → Phased s
    → Starts (taken ep id from domain o s)
unfolding taken
taken-Starts ep id from domain (some e) s d h = (h, d)
taken-Starts ep id from domain none s d h =
    began_with-Starts id from domain _ (noted (took domain) s) d h

with_domain-Starts :
    (ep : Endpoint) (id from : Text) (o : Result Err Text) (s : Session)
    → s.delivery ≡ false
    → Phased s
    → Starts (with_domain ep id from o s)
unfolding with_domain
with_domain-Starts ep id from (err e) s d h = (h, d)
with_domain-Starts ep id from (ok domain) s d h = taken-Starts ep id from domain _ s d h

with_sender-Starts :
    (ep : Endpoint) (id : Text) (o : Text × Option Err) (s : Session)
    → s.delivery ≡ false
    → Phased s
    → Starts (with_sender ep id o s)
unfolding with_sender
with_sender-Starts ep id (from, some e) s d h = (h, d)
with_sender-Starts ep id (from, none) s d h = with_domain-Starts ep id from _ s d h

with_id_of-Starts :
    (ep : Endpoint) (from : Text) (utf8 : Bool) (o : Result Error Text) (s : Session)
    → s.delivery ≡ false
    → Phased s
    → Starts (with_id_of ep from utf8 o s)
unfolding with_id_of
with_id_of-Starts ep from utf8 (err e) s d h = (h, d)
with_id_of-Starts ep from utf8 (ok id) s d h = elim (Bool-cases (not utf8 && wide from)) [
  | inl e ↦ rw e (h, d)
  | inr e ↦ rw e (with_sender-Starts ep id (clean_domain ep.packages from) s d h)
]

pub start_delivery-Starts :
    (ep : Endpoint) (from : Text) (utf8 : Bool) (s : Session)
    → s.delivery ≡ false
    → Phased s
    → Starts (start_delivery ep from utf8 s)
unfolding start_delivery
start_delivery-Starts ep from utf8 s d h =
    with_id_of-Starts ep from utf8 (ep.message_id s.calls) s d h

mail_begun-Phased :
    (ep : Endpoint) (from : Text) (utf8 : Bool) (b : Begun)
    → Starts b
    → Phased (mail_begun ep from utf8 b).0
unfolding mail_begun keep_mail
mail_begun-Phased ep from utf8 (s, some failed) h = h.0
mail_begun-Phased ep from utf8 (s, none) h = h.0

mail_now-Phased :
    (ep : Endpoint) (deferred : Bool) (from : Text) (utf8 : Bool) (s : Session)
    → s.delivery ≡ false
    → Phased s
    → Phased (mail_now ep deferred from utf8 s).0
unfolding mail_now keep_mail
mail_now-Phased ep true from utf8 s d h = h
mail_now-Phased ep false from utf8 s d h =
    mail_begun-Phased ep from utf8 (start_delivery ep from utf8 s)
      (start_delivery-Starts ep from utf8 s d h)

pub mail-Phased :
    (ep : Endpoint) (from : Text) (utf8 : Bool) (s : Session)
    → s.delivery ≡ false
    → Phased s
    → Phased (mail ep from utf8 s).0
unfolding mail
mail-Phased ep from utf8 s d h =
    elim (Bool-cases (ep.auth_always_required && anonymous s.auth_user)) [
      | inl e ↦ rw e h
      | inr e ↦ rw e (mail_now-Phased ep ep.defer_server_reject from utf8 s d h)
    ]
