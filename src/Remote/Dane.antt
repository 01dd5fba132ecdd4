-- ===== src/Remote/Dane.antt =====
-- internal/target/remote/dane.go: `verifyDANE`.
--
-- Whether a record matches a certificate, and the X.509 verification, are given.
pub mod Proof
use sirr_mesh.Base.{
  ℕ, Bool, true, false, ◌&&◌, ◌||◌, ◌==◌, Option, none, some, List, [], ◌∷◌, if◌then◌else◌, leb,
  Text, text,
}
use sirr_mesh.Exterrors.{Error, str, smtp_leaf}

-- A certificate, of which `id` is the contents.
pub record Cert : Type 0 where
  pub is_ca : Bool
  pub id : ℕ

-- `dns.TLSA`, with `Verify(cert) == nil`
pub record Tlsa : Type 0 where
  pub usage : ℕ
  pub selector : ℕ
  pub matching_type : ℕ
  pub verify : Cert → Bool

-- What the code uses of `tls.ConnectionState`; `leaf` and `chain` are `PeerCertificates`.
pub record ConnState : Type 0 where
  pub handshake_complete : Bool
  -- `VerifiedChains != nil`
  pub verified : Bool
  pub server_name : Text
  pub leaf : Cert
  pub chain : List Cert
  -- `PeerCertificates[0].Verify`, given the roots and the intermediates
  pub verifies : List Cert → List Cert → Bool

abbrev pub dane_error : ℕ → Text → ConnState → Error
dane_error detail msg c = smtp_leaf (record {
  code = 550;
  enhanced_code = record { major = 5; subject = 7; detail = detail };
  message = msg;
  check_name = [];
  target_name = text "remote";
  modifier_name = [];
  reason = [];
  misc = (text "remote_server", str c.server_name) ∷ [];
})

-- The matching type and the selector that the loop does not skip.
abbrev pub readable : Tlsa → Bool
readable rec = leb rec.matching_type 2 && leb rec.selector 1

-- The records of a usage: 3 is DANE-EE, 2 is DANE-TA.
unfoldable pub records_for : ℕ → List Tlsa → List Tlsa
records_for n [] = []
records_for n (rec ∷ recs) =
    let rest = records_for n recs in if readable rec && rec.usage == n then rec ∷ rest else rest

unfoldable pub some_verifies : List Tlsa → Cert → Bool
some_verifies [] cert = false
some_verifies (rec ∷ recs) cert = rec.verify cert || some_verifies recs cert

-- The certificates that are roots, and those that are not.
unfoldable pub roots : List Tlsa → List Cert → List Cert
unfolding some_verifies
roots recs [] = []
roots recs (cert ∷ certs) =
    let rest = roots recs certs in
    if cert.is_ca && some_verifies recs cert then cert ∷ rest else rest

unfoldable pub intermediates : List Tlsa → List Cert → List Cert
unfolding some_verifies
intermediates recs [] = []
intermediates recs (cert ∷ certs) =
    let rest = intermediates recs certs in
    if cert.is_ca && some_verifies recs cert then rest else cert ∷ rest

no_match : ConnState → Error
no_match c = dane_error 0 (text "No matching TLSA records") c

-- DANE-TA: `overridePKIX` and the error.
with_anchors : ConnState → List Tlsa → Bool × Option Error
unfolding roots intermediates no_match
with_anchors c [] = (true, some (no_match c))
with_anchors c (rec ∷ ta) =
    if c.verifies (roots (rec ∷ ta) (c.leaf ∷ c.chain))
      (intermediates (rec ∷ ta) (c.leaf ∷ c.chain))
    then (true, none)
    else (false, some (no_match c))

-- The records in use, DANE-EE and DANE-TA.
usable : ConnState → List Tlsa → List Tlsa → Bool × Option Error
unfolding with_anchors some_verifies
usable c [] [] = (false, none)
usable c ee ta = if some_verifies ee c.leaf then (true, none) else with_anchors c ta

-- `verifyDANE`
unfoldable pub verify_dane : List Tlsa → ConnState → Bool × Option Error
unfolding usable records_for
verify_dane [] c = (false, none)
verify_dane (rec ∷ recs) c =
    if c.handshake_complete
    then usable c (records_for 3 (rec ∷ recs)) (records_for 2 (rec ∷ recs))
    else (
      false,
      some (dane_error 1 (text "TLS is required but unsupported or failed (enforced by DANE)") c),
    )
