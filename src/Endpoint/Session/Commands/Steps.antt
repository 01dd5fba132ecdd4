-- ===== src/Endpoint/Session/Commands/Steps.antt =====
-- The commands of a session, one after the other.
use sirr_mesh.Base.{◌≡◌, Bool, false, some, List, Text, Result}
use sirr_mesh.Exterrors.{Error}
use sirr_mesh.Endpoint.Session.{Endpoint, Session, reset, logout}
use sirr_mesh.Endpoint.Session.Commands.{Replied, mail, rcpt, smtp_data, lmtp_data}

-- The commands: `MAIL` outside of a transaction (RFC 5321, 4.1.4), and the data of a message
-- when the source does not panic.
pub data Step (ep : Endpoint) : Session → Session → Type 0 where
  mail_step :
      (s : Session) (from : Text) (utf8 : Bool)
      → s.delivery ≡ false
      → Step ep s (mail ep from utf8 s).0
  rcpt_step : (s : Session) (to : Text) → Step ep s (rcpt ep to s).0
  data_step :
      (s : Session) (prepared : Result Error (List Text)) (r : Replied)
      → smtp_data ep prepared s ≡ some r
      → Step ep s r.0
  lmtp_step :
      (s : Session) (prepared : Result Error (List Text)) (r : Replied)
      → lmtp_data ep prepared s ≡ some r
      → Step ep s r.0
  reset_step : (s : Session) → Step ep s (reset s)
  logout_step : (s : Session) → Step ep s (logout s)

pub data Steps (ep : Endpoint) : Session → Session → Type 0 where
  stay : (s : Session) → Steps ep s s
  go : (s t u : Session) → Steps ep s t → Step ep t u → Steps ep s u
