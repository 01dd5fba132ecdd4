-- ===== src/Remote/Client.antt =====
-- internal/smtpconn/smtpconn.go: `Mail`, `Rcpt` and `wrapClientErr` of the client that the target uses, and
-- `Usable` of internal/target/remote/connect.go.
--
-- `Server` is what the other side answers to one call, for each connection; `to_ascii` stands for
-- `address.ToASCII`, `shown` for an error of framework/address. The options of MAIL that are forwarded
-- as they are, the log and `Misc` of the errors of the addresses are left out.
pub mod Accepted
use sirr_mesh.Base.{
  ℕ, ◌/◌, Bool, true, not, ◌&&◌, ◌||◌, ◌==◌, ltb, Option, none, some, [], ◌∷◌, ◌++◌, if◌then◌else◌,
  Text, text, Map, insert, Result, ok, err,
}
use sirr_mesh.Address.Errors.{Err}
use sirr_mesh.Address.Syntax.{is_ascii}
use sirr_mesh.Exterrors.{
  Error, EnhancedCode, Value, str, go_smtp, smtp_leaf, smtp_error, smtp_code, smtp_ench_code,
  with_fields,
}
use sirr_mesh.Remote.Mx.{Conn}

-- `*net.OpError`; `dns_error` if it has a `*net.DNSError`, with what `UnwrapDNSErr` gives.
pub record OpError : Type 0 where
  pub op_addr : Text
  pub op : Text
  pub dns_error : Option (Text × Map Value)

-- The type switch on the errors of other packages.
pub record Casts : Type 0 where
  pub is_tls_error : Error → Bool
  pub op_error : Error → Option OpError

network_error : Error → OpError → Option (Text × Map Value) → Error
unfolding smtp_code smtp_ench_code insert
network_error e o (some (reason, misc)) =
    let misc₁ = insert (text "remote_server") (str o.op_addr) misc in
    smtp_error
      (record {
        code = smtp_code e 450 550;
        enhanced_code = smtp_ench_code e (record { major = 0; subject = 4; detail = 4 });
        message = text "DNS error";
        check_name = [];
        target_name = [];
        modifier_name = [];
        reason = reason;
        misc = insert (text "io_op") (str o.op) misc₁;
      })
      e
network_error e o none =
    smtp_error
      (record {
        code = 450;
        enhanced_code = record { major = 4; subject = 4; detail = 2 };
        message = text "Network I/O error";
        check_name = [];
        target_name = [];
        modifier_name = [];
        reason = [];
        misc = (text "remote_addr", str o.op_addr) ∷ (text "io_op", str o.op) ∷ [];
      })
      e

other_error : Text → Error → Option OpError → Error
unfolding network_error with_fields
other_error server e (some o) = network_error e o o.dns_error
other_error server e none = with_fields e ((text "remote_server", str server) ∷ [])

-- An error that is no SMTP reply.
client_error : Casts → Text → Error → Error
unfolding other_error
client_error k server e = if k.is_tls_error e then e else other_error server e (k.op_error e)

-- `err.Code == 552`
reply_code : ℕ → ℕ
reply_code c = if c == 552 then 452 else c

reply_ench : ℕ → EnhancedCode → EnhancedCode
reply_ench c e = if c == 552 then record e { major = 4 } else e

said : Bool → Text → Text → Text
said addr_in_msg server m = if addr_in_msg then server ++ text " said: " ++ m else m

-- `wrapClientErr` of an error that is not nil; the reply that it keeps is changed in place.
unfoldable pub wrap_client_err : Casts → Bool → Text → Error → Error
unfolding client_error reply_code reply_ench said
wrap_client_err k addr_in_msg server (smtp_leaf se) = smtp_leaf se
wrap_client_err k addr_in_msg server (smtp_error se e) = smtp_error se e
wrap_client_err k addr_in_msg server (go_smtp c ench m t) =
    smtp_error
      (record {
        code = reply_code c;
        enhanced_code = reply_ench c ench;
        message = said addr_in_msg server m;
        check_name = [];
        target_name = [];
        modifier_name = [];
        reason = [];
        misc = (text "remote_server", str server) ∷ [];
      })
      (go_smtp (reply_code c) (reply_ench c ench) m t)
wrap_client_err k addr_in_msg server e = client_error k server e

pub record Server : Type 0 where
  -- `Extension`, by name
  pub smtp_utf8 : Conn → Bool
  pub requiretls : Conn → Bool
  -- an error of the client, not yet wrapped
  pub mail : Conn → Text → Option Error
  pub rcpt : Conn → Text → Option Error
  pub data_cmd : Conn → Option Error
  pub reset : Conn → Bool
  pub name_of : Conn → Text
  pub casts : Casts
  pub to_ascii : Text → Text × Option Err
  pub shown : Err → Error

wrap : Server → Conn → Option Error → Option Error
unfolding wrap_client_err
wrap s c none = none
wrap s c (some e) = some (wrap_client_err s.casts true (s.name_of c) e)

no_utf8 : ℕ → Text → Error → Error
no_utf8 code m e =
    smtp_error
      (record {
        code = code;
        enhanced_code = record { major = 5; subject = 6; detail = 7 };
        message = m;
        check_name = [];
        target_name = [];
        modifier_name = [];
        reason = [];
        misc = [];
      })
      e

mail_converted : Server → Conn → Text × Option Err → Option Error
unfolding wrap no_utf8
mail_converted s c (from, none) = wrap s c (s.mail c from)
mail_converted s c (from, some e) =
    some (no_utf8 550 (text "SMTPUTF8 is unsupported, cannot convert sender address") (s.shown e))

-- `Mail`
unfoldable pub send_mail : Server → Conn → Bool → Text → Option Error
unfolding mail_converted wrap
send_mail s c utf8 from =
    if utf8 && not (s.smtp_utf8 c)
    then mail_converted s c (s.to_ascii from)
    else wrap s c (s.mail c from)

-- The end of `Rcpt`: the address that was sent is added.
rcpt_added : Conn → Text → Option Error → Result Error Conn
rcpt_added c to (some e) = err e
rcpt_added c to none = ok (record c { rcpts = c.rcpts ++ (to ∷ []) })

rcpt_converted : Server → Conn → Text × Option Err → Result Error Conn
unfolding rcpt_added wrap no_utf8
rcpt_converted s c (to, none) = rcpt_added c to (wrap s c (s.rcpt c to))
rcpt_converted s c (to, some e) =
    err (no_utf8 553 (text "SMTPUTF8 is unsupported, cannot convert recipient address") (s.shown e))

-- `Rcpt`
unfoldable pub send_rcpt : Server → Conn → Text → Result Error Conn
unfolding rcpt_converted rcpt_added wrap is_ascii
send_rcpt s c to =
    if not (is_ascii to) && not (s.smtp_utf8 c)
    then rcpt_converted s c (s.to_ascii to)
    else rcpt_added c to (wrap s c (s.rcpt c to))

-- `Data`
unfoldable pub send_data : Server → Conn → Option Error
unfolding wrap
send_data s c = wrap s c (s.data_cmd c)

-- `mxConn.Usable`
unfoldable pub conn_usable : Server → Conn → Bool
conn_usable s c = not (ltb c.reuse_limit c.transactions || not c.client || c.errored) && s.reset c
