-- ===== src/Remote/Client/Accepted.antt =====
-- What `Rcpt` does to the connection.
use sirr_mesh.Base.{
  ◌≡◌, refl, true, false, not, ◌&&◌, ◌||◌, Option, none, some, [], ◌∷◌, ◌++◌, Bool-cases, inl, inr,
  arith, Text, Result, ok, err,
}
use sirr_mesh.Address.Errors.{Err}
use sirr_mesh.Exterrors.{Error}
use sirr_mesh.Address.Syntax.{is_ascii}
use sirr_mesh.Remote.Mx.{Conn}
use sirr_mesh.Remote.Client.{Server, rcpt_added, rcpt_converted, send_rcpt, wrap}

-- The recipient that was sent is added, which is the one given if that is ASCII or the
-- server has SMTPUTF8.
abbrev pub SentOn : Server → Conn → Text → Result Error Conn → Type 0
SentOn s c to (err e) = Unit {0}
SentOn s c to (ok d) =
    (sent : Text) × (d ≡ record c { rcpts = c.rcpts ++ (sent ∷ []) })
    × ((is_ascii to || s.smtp_utf8 c) ≡ true → sent ≡ to)

rcpt_added-SentOn :
    (s : Server) (c : Conn) (to : Text) (o : Option Error) → SentOn s c to (rcpt_added c to o)
unfolding rcpt_added
rcpt_added-SentOn s c to (some e) = tt
rcpt_added-SentOn s c to none = (to, refl, λ u. refl)

rcpt_added-Converted :
    (s : Server) (c : Conn) (to sent : Text) (o : Option Error)
    → (is_ascii to || s.smtp_utf8 c) ≡ false
    → SentOn s c to (rcpt_added c sent o)
unfolding rcpt_added
rcpt_added-Converted s c to sent (some e) h = tt
rcpt_added-Converted s c to sent none h = (sent, refl, λ u. absurd (ground (arith, h, u)))

rcpt_converted-SentOn :
    (s : Server) (c : Conn) (to : Text) (o : Text × Option Err)
    → (is_ascii to || s.smtp_utf8 c) ≡ false
    → SentOn s c to (rcpt_converted s c o)
unfolding rcpt_converted
rcpt_converted-SentOn s c to (sent, some e) h = tt
rcpt_converted-SentOn s c to (sent, none) h =
    rcpt_added-Converted s c to sent (wrap s c (s.rcpt c sent)) h

pub send_rcpt-SentOn : (s : Server) (c : Conn) (to : Text) → SentOn s c to (send_rcpt s c to)
unfolding send_rcpt
send_rcpt-SentOn s c to = elim (Bool-cases (not (is_ascii to) && not (s.smtp_utf8 c))) [
  | inl b ↦ rw b (rcpt_converted-SentOn s c to (s.to_ascii to) (ground (arith, b)))
  | inr b ↦ rw b (rcpt_added-SentOn s c to (wrap s c (s.rcpt c to)))
]
