-- ===== src/Remote/Discovery.antt =====
-- internal/target/remote/security.go: `discoverTLSA`, the records that DANE uses for an MX.
--
-- The lookups of the EDNS resolver are given; each says whether the answer is authenticated.
pub mod Authentic
mod Tests
use sirr_mesh.Base.{
  Bool, true, false, ◌&&◌, Option, none, some, List, [], ◌∷◌, if◌then◌else◌, Text, text, text_eq,
  Result, ok, err,
}
use sirr_mesh.Exterrors.{Error, plain}
use sirr_mesh.Remote.Dane.{Tlsa}

-- `AuthLookupTLSA`, which returns all three values.
pub record Found : Type 0 where
  pub authentic : Bool
  pub records : List Tlsa
  pub lookup_err : Option Error

pub record ExtResolver : Type 0 where
  -- `CheckCNAMEAD`, with the name behind the aliases
  pub check_cname_ad : Text → Result Error (Bool × Text)
  pub auth_lookup_cname : Text → Result Error Bool
  pub auth_lookup_tlsa : Text → Found
  -- `dns.IsNotFound`
  pub is_not_found : Error → Bool

abbrev pub real_error : ExtResolver → Option Error → Option Error
real_error r none = none
real_error r (some e) = if r.is_not_found e then none else some e

some_record : List Tlsa → Bool
some_record [] = false
some_record _ = true

-- The records at the original name.
at_name : Found → Option Error → Result Error (List Tlsa)
at_name f (some e) = err e
at_name f none = if f.authentic then ok f.records else ok []

at_mx : ExtResolver → Text → Result Error (List Tlsa)
unfolding at_name
at_mx r mx = at_name (r.auth_lookup_tlsa mx) (real_error r (r.auth_lookup_tlsa mx).lookup_err)

-- The records at the name behind the aliases come first.
at_alias : ExtResolver → Text → Found → Option Error → Result Error (List Tlsa)
unfolding at_mx some_record
at_alias r mx f (some e) = err e
at_alias r mx f none = if f.authentic && some_record f.records then ok f.records else at_mx r mx

with_secure_address : ExtResolver → Text → Text → Result Error (List Tlsa)
unfolding at_alias at_mx text_eq
with_secure_address r mx rname =
    if text_eq rname mx
    then at_mx r mx
    else at_alias r mx (r.auth_lookup_tlsa rname)
        (real_error r (r.auth_lookup_tlsa rname).lookup_err)

with_cname : ExtResolver → Text → Text → Result Error Bool → Result Error (List Tlsa)
unfolding with_secure_address
with_cname r mx rname (err e) = err e
with_cname r mx rname (ok ad) = if ad then with_secure_address r mx rname else ok []

with_name : ExtResolver → Text → Bool → Text → Result Error (List Tlsa)
unfolding with_cname with_secure_address text_eq
with_name r mx true rname = with_secure_address r mx rname
with_name r mx false rname =
    if text_eq rname mx then ok [] else with_cname r mx rname (r.auth_lookup_cname mx)

with_address : ExtResolver → Text → Result Error (Bool × Text) → Result Error (List Tlsa)
unfolding with_name
with_address r mx (err e) = err e
with_address r mx (ok (ad, [])) = err (plain (text "no address associated with the host"))
with_address r mx (ok (ad, c ∷ rname)) = with_name r mx ad (c ∷ rname)

-- `discoverTLSA`
unfoldable pub discover_tlsa : ExtResolver → Text → Result Error (List Tlsa)
unfolding with_address
discover_tlsa r mx = with_address r mx (r.check_cname_ad mx)
