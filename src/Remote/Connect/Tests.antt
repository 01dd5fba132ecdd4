-- ===== src/Remote/Connect/Tests.antt =====
-- An MX with a bad certificate, which DANE authenticates.
use sirr_mesh.Base.{◌≡◌, refl, true, false, ◌==◌, Option, none, some, List, [], ◌∷◌, text, ok}
use sirr_mesh.Exterrors.{Error, plain}
use sirr_mesh.Remote.Dane.{Tlsa, ConnState, verify_dane}
use sirr_mesh.Remote.Policy.{Policy, dnssec, dane, local_policy, check_mx, check_conn}
use sirr_mesh.Remote.Connect.{
  Mode, verifying, skipping, plaintext, Dialed, Dial, MxConn, connect, attempt_mx, require_levels,
}
use sirr_mesh.Remote.Dane.Proof.{Authenticates, verify_dane-Authenticates}
use sirr_mesh.Remote.Connect.Established.{Established, connect-Established}
use sirr_mesh.Remote.Connect.Met.{Met, attempt_mx-Met}

abbrev self_signed : ConnState
self_signed = record {
  handshake_complete = true;
  verified = false;
  server_name = text "mx.a.org";
  leaf = record { is_ca = false; id = 1 };
  chain = [];
  verifies = λ roots rest. false;
}

abbrev answers : Option Error → Dialed
answers e = record {
  connect_err = none;
  starttls = true;
  starttls_err = none;
  hello_err = e;
  tls_state = self_signed;
}

abbrev unverified : Error
unverified = plain (text "x509")

abbrev met_by : Mode → Dialed
met_by verifying = answers (some unverified)
met_by skipping = answers none
met_by plaintext = answers none

abbrev dial : Dial
dial = record { dialed = met_by; is_verify = λ e. true; has_config = true }

abbrev pinned : Tlsa
pinned = record { usage = 3; selector = 1; matching_type = 1; verify = λ cert. cert.id == 1 }

abbrev policies : List Policy
policies = dnssec ∷ dane (some (ok (pinned ∷ []))) ∷ local_policy 2 1 ∷ []

abbrev authenticated : MxConn
authenticated = record {
  mx_level = 2;
  tls_level = 2;
  connected = record { level = 1; tls_err = some unverified; mode = skipping; state = self_signed };
}

dane_run : attempt_mx dial policies (text "mx.a.org") true ≡ ok authenticated
unfolding attempt_mx check_mx check_conn verify_dane connect
dane_run = refl

attempt_mx-Met_example : Met policies (text "mx.a.org") true authenticated
unfolding require_levels
attempt_mx-Met_example = attempt_mx-Met dial policies (text "mx.a.org") true true dane_run refl

-- Records that are not usable still ask for TLS, not for a certificate.
unusable : verify_dane ((record pinned { usage = 0 }) ∷ []) self_signed ≡ (false, none)
unfolding verify_dane
unusable = refl

dial_connected : connect dial ≡ ok authenticated.connected
unfolding connect
dial_connected = refl

connect-Established_example : Established dial authenticated.connected
connect-Established_example = connect-Established dial dial_connected

verify_dane-Authenticates_example : Authenticates (pinned ∷ []) self_signed
unfolding verify_dane
verify_dane-Authenticates_example = verify_dane-Authenticates (pinned ∷ []) self_signed refl
