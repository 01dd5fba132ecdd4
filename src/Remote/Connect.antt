-- ===== src/Remote/Connect.antt =====
-- internal/target/remote/connect.go: `connect`, `attemptMX`, and the checks of `connectionForDomain` for
-- REQUIRETLS.
--
-- `Dial` is what a new connection to the MX meets, for each way to use TLS; `connect` uses each at most
-- once. A connection without TLS has the zero `tls.ConnectionState`.
pub mod Met
pub mod Established
mod Tests
use sirr_mesh.Base.{
  ℕ, Bool, true, false, Option, none, some, List, [], ◌∷◌, if◌then◌else◌, ltb, Text, text, Result,
  ok, err,
}
use sirr_mesh.Exterrors.{Error, Value, nil, other, with_fields, message_of}
use sirr_mesh.Remote.Dane.{ConnState}
use sirr_mesh.Remote.Policy.{
  Policy, check_mx, check_conn, policy_error, tls_none, tls_encrypted, tls_authenticated, mx_none,
  mx_mtasts,
}

pub data Mode : Type 0 where
  verifying : Mode
  -- `InsecureSkipVerify`
  skipping : Mode
  -- `tlsCfg = nil`
  plaintext : Mode

pub record Dialed : Type 0 where
  pub connect_err : Option Error
  pub starttls : Bool
  pub starttls_err : Option Error
  pub hello_err : Option Error
  pub tls_state : ConnState

pub record Dial : Type 0 where
  pub dialed : Mode → Dialed
  -- `isVerifyError`
  pub is_verify : Error → Bool
  -- `rd.rt.tlsConfig != nil`
  pub has_config : Bool

-- An open connection; `mode` is how the last handshake was done.
pub record Connected : Type 0 where
  pub level : ℕ
  pub tls_err : Option Error
  pub mode : Mode
  pub state : ConnState

abbrev pub no_tls : ConnState → ConnState
no_tls c = record c { handshake_complete = false; verified = false }

in_plain : Option Error → Dialed → Connected
in_plain e d = record {
  level = tls_none;
  tls_err = e;
  mode = plaintext;
  state = no_tls d.tls_state;
}

connect_plain : Option Error → Dialed → Option Error → Result Error Connected
unfolding in_plain
connect_plain e d (some x) = err x
connect_plain e d none = ok (in_plain e d)

plain_mode : Dial → Option Error → Result Error Connected
unfolding connect_plain
plain_mode w e = connect_plain e (w.dialed plaintext) (w.dialed plaintext).connect_err

hello_skipping : Dial → Option Error → Dialed → Option Error → Result Error Connected
unfolding plain_mode
hello_skipping w e d (some x) = plain_mode w (some x)
hello_skipping w e d none =
    ok (record { level = tls_encrypted; tls_err = e; mode = skipping; state = d.tls_state })

starttls_skipping : Dial → Option Error → Dialed → Bool → Option Error → Result Error Connected
unfolding hello_skipping in_plain
starttls_skipping w e d false x = ok (in_plain e d)
starttls_skipping w e d true (some x) = err x
starttls_skipping w e d true none = hello_skipping w e d d.hello_err

connect_skipping : Dial → Option Error → Dialed → Option Error → Result Error Connected
unfolding starttls_skipping
connect_skipping w e d (some x) = err x
connect_skipping w e d none = starttls_skipping w e d d.starttls d.starttls_err

skip_mode : Dial → Option Error → Result Error Connected
unfolding connect_skipping
skip_mode w e = connect_skipping w e (w.dialed skipping) (w.dialed skipping).connect_err

hello_verifying : Dial → Dialed → Option Error → Result Error Connected
unfolding skip_mode plain_mode
hello_verifying w d (some x) = if w.is_verify x then skip_mode w (some x) else plain_mode w (some x)
hello_verifying w d none =
    ok (record { level = tls_authenticated; tls_err = none; mode = verifying; state = d.tls_state })

starttls_verifying : Dial → Dialed → Bool → Option Error → Result Error Connected
unfolding hello_verifying in_plain
starttls_verifying w d false x = ok (in_plain none d)
starttls_verifying w d true (some x) = err x
starttls_verifying w d true none = hello_verifying w d d.hello_err

connect_verifying : Dial → Dialed → Option Error → Result Error Connected
unfolding starttls_verifying
connect_verifying w d (some x) = err x
connect_verifying w d none = starttls_verifying w d d.starttls d.starttls_err

connect_mode : Dial → Bool → Result Error Connected
unfolding connect_verifying plain_mode
connect_mode w true = connect_verifying w (w.dialed verifying) (w.dialed verifying).connect_err
connect_mode w false = plain_mode w none

-- `connect`
unfoldable pub connect : Dial → Result Error Connected
unfolding connect_mode
connect w = connect_mode w w.has_config

-- `if policyLevel > mxLevel`
abbrev pub raise : ℕ → ℕ → ℕ
raise level k = if ltb level k then k else level

raise_then : ℕ → Result Error ℕ → (ℕ → Result Error ℕ) → Result Error ℕ
raise_then level (err e) next = err e
raise_then level (ok k) next = next (raise level k)

-- The two loops over the policies.
unfoldable pub mx_levels : Text → Bool → List Policy → ℕ → Result Error ℕ
unfolding raise_then check_mx
mx_levels mx ad [] level = ok level
mx_levels mx ad (p ∷ ps) level = raise_then level (check_mx p level mx ad) (mx_levels mx ad ps)

unfoldable pub conn_levels : ConnState → List Policy → ℕ → Result Error ℕ
unfolding raise_then check_conn
conn_levels c [] level = ok level
conn_levels c (p ∷ ps) level = raise_then level (check_conn p level c) (conn_levels c ps)

-- A connection to the MX, with `mxLevel` and `tlsLevel`.
pub record MxConn : Type 0 where
  pub mx_level : ℕ
  pub tls_level : ℕ
  pub connected : Connected

error_value : Option Error → Value
error_value none = nil
error_value (some e) = other (message_of e)

with_levels : ℕ → Connected → Result Error ℕ → Result Error MxConn
unfolding error_value
with_levels m c (err e) = err (with_fields e ((text "tls_err", error_value c.tls_err) ∷ []))
with_levels m c (ok t) = ok (record { mx_level = m; tls_level = t; connected = c })

with_connection : List Policy → ℕ → Result Error Connected → Result Error MxConn
unfolding with_levels conn_levels
with_connection ps m (err e) = err e
with_connection ps m (ok c) = with_levels m c (conn_levels c.state ps c.level)

with_mx : Dial → List Policy → Result Error ℕ → Result Error MxConn
unfolding with_connection connect
with_mx w ps (err e) = err e
with_mx w ps (ok m) = with_connection ps m (connect w)

-- `attemptMX`
unfoldable pub attempt_mx : Dial → List Policy → Text → Bool → Result Error MxConn
unfolding with_mx mx_levels
attempt_mx w ps mx ad = with_mx w ps (mx_levels mx ad ps mx_none)

-- `if rd.msgMeta.SMTPOpts.RequireTLS`, on the levels of TLS and of the MX.
unfoldable pub require_levels : Bool → ℕ → ℕ → Option Error
require_levels false tls_level mx_level = none
require_levels true tls_level mx_level =
    if ltb tls_level tls_authenticated
    then some (
        policy_error 550 5 30
          (text "TLS it not available or unauthenticated but required (REQUIRETLS)"))
    else if ltb mx_level mx_mtasts
    then some
        (policy_error 550 5 30 (text "Failed to establish the MX record authenticity (REQUIRETLS)"))
    else none

abbrev pub require_tls : Bool → MxConn → Option Error
require_tls required c = require_levels required c.tls_level c.mx_level
