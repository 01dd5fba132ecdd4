-- ===== src/Remote/Sending/Statuses.antt =====
-- Every recipient gets a status, and what the statuses come to.
use sirr_mesh.Base.{
  ℕ, ◌≡◌, ◌↔◌, refl, ◌∙◌, Bool, true, false, ◌||◌, ◌++◌, ◌==◌, Option, none, some, List, [], ◌∷◌,
  All, Bool-cases, inl, inr, arith, Text, text_eq, Map, member, length,
}
use sirr_mesh.Exterrors.{Error}
use sirr_mesh.Remote.Mx.{Conn}
use sirr_mesh.Remote.Client.{Server}
use sirr_mesh.Remote.Start.{Rd}
use sirr_mesh.Remote.Delivery.Accepted.{covers, Covered}
use sirr_mesh.Remote.Sending.{
  Statuses, set_all, send_on, send_all, body_unless, body_non_atomic, quarantined, no_failure,
  first_failure, failure_of, is_error,
}

-- Is there a status for the recipient?
abbrev pub has_status : Text → Statuses → Bool
has_status r [] = false
has_status r ((x, e) ∷ statuses) = text_eq x r || has_status r statuses

has_status-set_all :
    (r : Text) (rcpts : List Text) (e : Option Error)
    → has_status r (set_all rcpts e) ≡ member r rcpts
has_status-set_all r [] e = refl
has_status-set_all r (x ∷ rcpts) e = ground (arith, has_status-set_all r rcpts e)

has_status-append :
    (r : Text) (xs ys : Statuses) → has_status r (xs ++ ys) ≡ (has_status r xs || has_status r ys)
has_status-append r [] ys = refl
has_status-append r (x ∷ xs) ys = ground (arith, has_status-append r xs ys)

module _ (s : Server) (opens : Conn → Option Error) (now : ℕ) where
  send_all-covers :
      (r : Text) (conns : Map Conn) → has_status r (send_all s opens now conns).1 ≡ covers r conns
  unfolding send_all
  send_all-covers r [] = refl
  send_all-covers r ((k, c) ∷ conns) = ground (
    arith,
    has_status-append r (set_all c.rcpts (send_on s opens now c).1) (send_all s opens now conns).1,
    has_status-set_all r c.rcpts (send_on s opens now c).1,
    send_all-covers r conns,
  )

  body_unless-has_status :
      {G : Type 0} (b : Bool) (rd : Rd G) (r : Text)
      → Covered rd
      → member r rd.recipients ≡ true
      → has_status r (body_unless s opens now b rd).1 ≡ true
  unfolding body_unless
  body_unless-has_status true rd r i m = has_status-set_all r rd.recipients (some quarantined) ∙ m
  body_unless-has_status false rd r i m = send_all-covers r rd.connections ∙ i r m

  pub body-has_status :
      {G : Type 0} (rd : Rd G) (r : Text)
      → Covered rd
      → member r rd.recipients ≡ true
      → has_status r (body_non_atomic s opens now rd).1 ≡ true
  unfolding body_non_atomic
  body-has_status rd r i m = body_unless-has_status rd.msg_meta.quarantine rd r i m

abbrev pub AllSent : Map (Option Error) → Type 0
AllSent errs = All (λ e. is_error e.1 ≡ false) errs

first_failure_iff :
    (errs rest : Map (Option Error)) → (first_failure errs rest ≡ no_failure) ↔ AllSent rest
unfolding first_failure
first_failure_iff errs [] = (λ h. tt, λ h. refl)
first_failure_iff errs ((r, none) ∷ rest) =
    (λ h. (refl, (first_failure_iff errs rest).0 h), λ h. (first_failure_iff errs rest).1 h.1)
first_failure_iff errs ((r, some e) ∷ rest) = elim (Bool-cases (length errs == 1)) [
  | inl b ↦ (λ h. absurd (ground (arith, b, h)), λ h. absurd (ground (arith, h.0)))
  | inr b ↦ (λ h. absurd (ground (arith, b, h)), λ h. absurd (ground (arith, h.0)))
]

-- `Body` returns nil exactly if the status of every recipient is nil.
pub failure_of_iff : (errs : Map (Option Error)) → (failure_of errs ≡ no_failure) ↔ AllSent errs
unfolding failure_of
failure_of_iff errs = first_failure_iff errs errs
