-- ===== src/Endpoint/Session/Commands/Balance.antt =====
-- What a session has taken from the limits.
use sirr_mesh.Base.{
  ◌≡◌, refl, subst, ◌∙◌, ap, inl, inr, Bool, true, false, not, ◌&&◌, Option, none, some, List, [],
  ◌∷◌, Bool-cases, if◌then◌else◌, Text, text_eq, text_eq_iff, Result, ok, err,
}
use sirr_mesh.Exterrors.{Error}
use sirr_mesh.Address.Errors.{Err}
use sirr_mesh.Address.Norm.{clean_domain}
use sirr_mesh.Endpoint.Session.{
  Call, took, released, abort_called, Endpoint, Session, noted, sender_domain, release_domain,
  release_limits, clean_session, abort_session, abort_if,
}
use sirr_mesh.Endpoint.Session.Commands.{
  Begun, began_with, taken, with_domain, with_sender, with_id_of, wide, start_delivery,
}

abbrev also : Text → Option (List Text) → Option (List Text)
also x none = none
also x (some xs) = some (x ∷ xs)

-- One less of a domain; none if it is not there.
abbrev without : Text → List Text → Option (List Text)
without d [] = none
without d (x ∷ xs) = let rest = without d xs in if text_eq x d then some xs else also x rest

abbrev given_back : Text → Option (List Text) → Option (List Text)
given_back d none = none
given_back d (some xs) = without d xs

-- The domains that were taken and not released; none if one was released that was not held.
abbrev pub held : List Call → Option (List Text)
held [] = some []
held (took d ∷ cs) = also d (held cs)
held (released d ∷ cs) = given_back d (held cs)
held (c ∷ cs) = held cs

-- With a delivery, that of the sender; without one, none.
abbrev pub Holds : Bool → Session → Type 0
Holds false s = held s.calls ≡ some []
Holds true s = (d : Text) × (sender_domain s.mail_from ≡ ok d) × (held s.calls ≡ some (d ∷ []))

abbrev pub Balanced : Session → Type 0
Balanced s = Holds s.delivery s

without_only : (d : Text) → without d (d ∷ []) ≡ some []
without_only d = rw ((text_eq_iff d d).1 refl) refl

pub clean_session-Balanced : (s : Session) → Holds true s → Balanced (clean_session s)
unfolding clean_session release_limits release_domain
clean_session-Balanced s (d, domain, only) = rw domain (ap (given_back d) only ∙ without_only d)

pub abort_if-Balanced :
    (b : Bool) (s : Session) → b ≡ s.delivery → Holds b s → Balanced (abort_if b s)
unfolding abort_if abort_session
abort_if-Balanced false s e h = subst (λ b. Holds b s) e h
abort_if-Balanced true s e h = clean_session-Balanced (noted abort_called s) h

-- A start holds the domain of its sender, or has released it.
abbrev pub Begins : Begun → Type 0
Begins (s, none) = Holds true s × (s.delivery ≡ true)
Begins (s, some failed) = Holds false s × (s.delivery ≡ false)

began_with-Begins :
    (id from domain : Text) (o : Option Error) (s : Session)
    → s.delivery ≡ false
    → sender_domain from ≡ ok domain
    → held s.calls ≡ some (domain ∷ [])
    → Begins (began_with id from domain o s)
unfolding began_with
began_with-Begins id from domain (some e) s d same h =
    (ap (given_back domain) h ∙ without_only domain, d)
began_with-Begins id from domain none s d same h = ((domain, same, h), refl)

taken-Begins :
    (ep : Endpoint) (id from domain : Text) (o : Option Error) (s : Session)
    → s.delivery ≡ false
    → sender_domain from ≡ ok domain
    → held s.calls ≡ some []
    → Begins (taken ep id from domain o s)
unfolding taken
taken-Begins ep id from domain (some e) s d same h = (h, d)
taken-Begins ep id from domain none s d same h =
    began_with-Begins id from domain _ (noted (took domain) s) d same (ap (also domain) h)

with_domain-Begins :
    (ep : Endpoint) (id from : Text) (o : Result Err Text) (s : Session)
    → s.delivery ≡ false
    → sender_domain from ≡ o
    → held s.calls ≡ some []
    → Begins (with_domain ep id from o s)
unfolding with_domain
with_domain-Begins ep id from (err e) s d same h = (h, d)
with_domain-Begins ep id from (ok domain) s d same h =
    taken-Begins ep id from domain (ep.take_limits s.calls domain) s d same h

with_sender-Begins :
    (ep : Endpoint) (id : Text) (o : Text × Option Err) (s : Session)
    → s.delivery ≡ false
    → held s.calls ≡ some []
    → Begins (with_sender ep id o s)
unfolding with_sender
with_sender-Begins ep id (from, some e) s d h = (h, d)
with_sender-Begins ep id (from, none) s d h =
    with_domain-Begins ep id from (sender_domain from) s d refl h

with_id_of-Begins :
    (ep : Endpoint) (from : Text) (utf8 : Bool) (o : Result Error Text) (s : Session)
    → s.delivery ≡ false
    → held s.calls ≡ some []
    → Begins (with_id_of ep from utf8 o s)
unfolding with_id_of
with_id_of-Begins ep from utf8 (err e) s d h = (h, d)
with_id_of-Begins ep from utf8 (ok id) s d h = elim (Bool-cases (not utf8 && wide from)) [
  | inl e ↦ rw e (h, d)
  | inr e ↦ rw e (with_sender-Begins ep id (clean_domain ep.packages from) s d h)
]

pub start_delivery-Begins :
    (ep : Endpoint) (from : Text) (utf8 : Bool) (s : Session)
    → s.delivery ≡ false
    → held s.calls ≡ some []
    → Begins (start_delivery ep from utf8 s)
unfolding start_delivery
start_delivery-Begins ep from utf8 s d h =
    with_id_of-Begins ep from utf8 (ep.message_id s.calls) s d h
