-- ===== src/Remote/Policy.antt =====
-- internal/target/remote/security.go: the policies that authenticate an MX, as they answer for one
-- message; framework/module/mxauth.go: the levels, which are numbers there too.
--
-- A policy holds what its lookups returned. The misc maps of the errors are left out, as is the
-- parsing of the configuration.
use sirr_mesh.Base.{
  ℕ, Bool, true, false, Option, none, some, List, [], if◌then◌else◌, ltb, Text, text, Result, ok,
  err,
}
use sirr_mesh.Exterrors.{Error, smtp_leaf, with_temporary}
use sirr_mesh.Remote.Dane.{Tlsa, ConnState, verify_dane}

abbrev pub tls_none : ℕ
tls_none = 0

abbrev pub tls_encrypted : ℕ
tls_encrypted = 1

abbrev pub tls_authenticated : ℕ
tls_authenticated = 2

abbrev pub mx_none : ℕ
mx_none = 0

abbrev pub mx_mtasts : ℕ
mx_mtasts = 1

abbrev pub mx_dnssec : ℕ
mx_dnssec = 2

-- `mtasts.Policy`: is its mode `enforce`, and `Match`.
pub record StsPolicy : Type 0 where
  pub enforced : Bool
  pub matches : Text → Bool

pub data Policy : Type 0 where
  mtasts : Result Error StsPolicy → Policy
  sts_preload : Policy
  dnssec : Policy
  -- with no resolver, or the records of `discoverTLSA`; is an error `IsNotFound`?
  dane : Option (Result (Bool × Error) (List Tlsa)) → Policy
  -- the least levels of TLS and of the MX
  local_policy : ℕ → ℕ → Policy

abbrev pub policy_error : ℕ → ℕ → ℕ → Text → Error
policy_error c major detail msg = smtp_leaf (record {
  code = c;
  enhanced_code = record { major = major; subject = 7; detail = detail };
  message = msg;
  check_name = [];
  target_name = [];
  modifier_name = [];
  reason = [];
  misc = [];
})

unfoldable pub unmatched : Bool → Result Error ℕ
unmatched true =
    err (policy_error 550 5 0 (text "Failed to establish the MX record authenticity (MTA-STS)"))
unmatched false = ok mx_none

dnssec_mx : Bool → Result Error ℕ
dnssec_mx ad = ok (if ad then mx_dnssec else mx_none)

unfoldable pub local_mx : ℕ → ℕ → Result Error ℕ
local_mx min_mx level =
    if ltb level min_mx
    then err (policy_error 451 4 0 (text "Failed to establish the MX record authenticity"))
    else ok mx_none

-- `CheckMX`
unfoldable pub check_mx : Policy → ℕ → Text → Bool → Result Error ℕ
unfolding unmatched dnssec_mx local_mx
check_mx (mtasts (err e)) level mx ad = ok mx_none
check_mx (mtasts (ok sts)) level mx ad =
    if sts.matches mx then ok mx_mtasts else unmatched sts.enforced
check_mx sts_preload level mx ad = ok level
check_mx dnssec level mx ad = dnssec_mx ad
check_mx (dane d) level mx ad = ok mx_none
check_mx (local_policy min_tls min_mx) level mx ad = local_mx min_mx level

unfoldable pub sts_conn : Bool → ConnState → Result Error ℕ
sts_conn false c = ok tls_none
sts_conn true c =
    if c.handshake_complete
    then (if c.verified
        then ok tls_none
        else err (
            policy_error 451 4 1 (
              text
                "Recipient server TLS certificate is not trusted but authentication is required by MTA-STS")))
    else err (policy_error 451 4 1 (text "TLS is required but unavailable or failed (MTA-STS)"))

unfoldable pub dane_level : Bool × Option Error → Result Error ℕ
dane_level (override, some e) = err e
dane_level (true, none) = ok tls_authenticated
dane_level (false, none) = ok tls_none

unfoldable pub local_conn : ℕ → ℕ → Result Error ℕ
local_conn min_tls level =
    if ltb level min_tls
    then err (policy_error 451 4 1 (text "TLS it not available or unauthenticated but required"))
    else ok tls_none

unfoldable pub dane_conn : Option (Result (Bool × Error) (List Tlsa)) → ConnState → Result Error ℕ
unfolding dane_level verify_dane
dane_conn none c = ok tls_none
dane_conn (some (err (true, e))) c = ok tls_none
dane_conn (some (err (false, e))) c = err (with_temporary e true)
dane_conn (some (ok recs)) c = dane_level (verify_dane recs c)

-- `CheckConn`
unfoldable pub check_conn : Policy → ℕ → ConnState → Result Error ℕ
unfolding sts_conn dane_conn local_conn
check_conn (mtasts (err e)) level c = ok tls_none
check_conn (mtasts (ok sts)) level c = sts_conn sts.enforced c
check_conn sts_preload level c = ok level
check_conn dnssec level c = ok tls_none
check_conn (dane found) level c = dane_conn found c
check_conn (local_policy min_tls min_mx) level c = local_conn min_tls level
