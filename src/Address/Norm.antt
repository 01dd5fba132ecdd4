-- ===== src/Address/Norm.antt =====
-- framework/address/norm.go, rfc6531.go, the rest of validation.go, and framework/dns/norm.go.
--
-- `strings.ToLower` applies the table `unicode.ToLower` to each rune, so the table is a parameter,
-- and so are the third-party packages: `idna`, `norm.NFC` and the PRECIS profiles. A function that
-- returns `(string, error)` with a meaningful string beside the error returns the pair.
pub mod Lookup
pub mod Ascii
pub mod Tests
use sirr_mesh.Base.{
  ℕ, ◌+◌, Bool, true, false, not, ◌&&◌, ◌||◌, [], ◌∷◌, ◌++◌, Option, none, some, ltb, ◌==◌,
  if◌then◌else◌, Text, text_eq, byte_len, has_prefix, contains, split_on, Result, ok, err, ◌>>=◌,
  all,
}
use sirr_mesh.Address.Errors.{Err, unicode_mailbox, precis_failed}
use sirr_mesh.Address.Syntax.{split, valid_mailbox_name}

-- `strings.ToLower(s)` for the table `unicode.ToLower`.
abbrev pub to_lower : (ℕ → ℕ) → Text → Text
to_lower lower [] = []
to_lower lower (c ∷ cs) = lower c ∷ to_lower lower cs

-- The functions of other packages. `idna` gives its value or its error; `norm.NFC` gives a value.
pub record Packages : Type 0 where
  pub lower : ℕ → ℕ
  pub nfc : Text → Text
  pub idna_to_unicode : Text → Result Err Text
  pub idna_to_ascii : Text → Result Err Text

module _ (p : Packages) where
  open p use {lower, nfc, idna_to_unicode, idna_to_ascii}

  abbrev short_labels : Result Err Text → Bool
  short_labels (err e) = false
  short_labels (ok ascii) = all (λ label. not (ltb 64 (byte_len label))) (split_on b'.' ascii)

  unfoldable pub valid_domain : Text → Bool
  unfolding has_prefix contains split_on
  valid_domain domain =
      not (ltb 255 (byte_len domain) || byte_len domain == 0)
      && not (has_prefix (b'.' ∷ []) domain)
      && not (contains (b'.' ∷ b'.' ∷ []) domain)
      && short_labels (idna_to_ascii domain)

  valid_parts : Result Err (Text × Text) → Bool
  unfolding valid_domain
  valid_parts (err e) = false
  valid_parts (ok (mbox, [])) = true
  valid_parts (ok (mbox, domain)) = valid_mailbox_name mbox && valid_domain domain

  unfoldable pub valid : Text → Bool
  unfolding valid_parts split valid_mailbox_name
  valid addr = if ltb 320 (byte_len addr) then false else valid_parts (split addr)

  -- `strings.TrimSuffix(s, ".")`
  trim_dot : Text → Text
  trim_dot [] = []
  trim_dot (c ∷ []) = if c == b'.' then [] else c ∷ []
  trim_dot (c ∷ cs) = c ∷ trim_dot cs

  -- framework/dns/norm.go: `ForLookup`.
  unfoldable pub dns_for_lookup : Text → Text × Option Err
  unfolding trim_dot
  dns_for_lookup domain = elim (idna_to_unicode domain) [
    | err e ↦ (to_lower lower domain, some e)
    | ok u_domain ↦ (trim_dot (to_lower lower (nfc u_domain)), none)
  ]

  -- `if domain != ""`, with the canonical form of the domain and its error.
  lookup_parts : Text → Text → Text → Text × Option Err → Text × Option Err
  lookup_parts addr mbox [] folded = (to_lower lower (nfc mbox), none)
  lookup_parts addr mbox domain (folded, some e) = (to_lower lower addr, some e)
  -- `domain == ""` is asked again of the canonical form.
  lookup_parts addr mbox domain ([], none) = (to_lower lower (nfc mbox), none)
  lookup_parts addr mbox domain (folded, none) =
      (to_lower lower (nfc mbox) ++ (b'@' ∷ folded), none)

  for_lookup_split : Text → Result Err (Text × Text) → Text × Option Err
  unfolding lookup_parts dns_for_lookup
  for_lookup_split addr (err e) = (to_lower lower addr, some e)
  for_lookup_split addr (ok (mbox, domain)) = lookup_parts addr mbox domain (dns_for_lookup domain)

  unfoldable pub for_lookup : Text → Text × Option Err
  unfolding for_lookup_split
  for_lookup [] = ([], none)
  for_lookup addr = for_lookup_split addr (split addr)

  unfoldable pub equal : Text → Text → Bool
  unfolding text_eq
  equal addr₁ addr₂ =
      if text_eq addr₁ addr₂ then true else text_eq (for_lookup addr₁).0 (for_lookup addr₂).0

  clean_parts : Text → Text → Text → Result Err Text → Text × Option Err
  clean_parts addr mbox domain (err e) = (addr, some e)
  clean_parts addr mbox [] (ok u_domain) = (mbox, none)
  clean_parts addr mbox domain (ok u_domain) =
      (mbox ++ (b'@' ∷ to_lower lower (nfc u_domain)), none)

  clean_split : Text → Result Err (Text × Text) → Text × Option Err
  unfolding clean_parts
  clean_split addr (err e) = (addr, some e)
  clean_split addr (ok (mbox, domain)) = clean_parts addr mbox domain (idna_to_unicode domain)

  unfoldable pub clean_domain : Text → Text × Option Err
  unfolding clean_split
  clean_domain [] = ([], none)
  clean_domain addr = clean_split addr (split addr)

  precis_parts : Result Err Text → Text × Option Err → Result Err Text
  precis_parts (err e) domain = err (precis_failed e)
  precis_parts (ok mbox) (domain, some e) = err (precis_failed e)
  precis_parts (ok mbox) (domain, none) = ok (mbox ++ (b'@' ∷ domain))

  precis_split : (Text → Result Err Text) → Result Err (Text × Text) → Result Err Text
  unfolding precis_parts
  precis_split profile (err e) = err (precis_failed e)
  precis_split profile (ok (mbox, domain)) = precis_parts (profile mbox) (dns_for_lookup domain)

  -- `profile` is the `CompareKey` of a PRECIS profile.
  unfoldable pub precis_email : (Text → Result Err Text) → Text → Result Err Text
  unfolding precis_split
  precis_email profile addr = precis_split profile (split addr)

  ascii_domain : Text → Text → Text → Result Err Text → Text × Option Err
  ascii_domain addr mbox [] a_domain = (mbox, none)
  ascii_domain addr mbox domain (err e) = (addr, some e)
  ascii_domain addr mbox domain (ok a_domain) = (mbox ++ (b'@' ∷ a_domain), none)

  to_ascii_split : Text → Result Err (Text × Text) → Text × Option Err
  unfolding ascii_domain
  to_ascii_split addr (err e) = (addr, some e)
  to_ascii_split addr (ok (mbox, domain)) =
      if not (all (λ ch. not (ltb 128 ch)) mbox)
      then (addr, some unicode_mailbox)
      else ascii_domain addr mbox domain (idna_to_ascii domain)

  unfoldable pub to_ascii : Text → Text × Option Err
  unfolding to_ascii_split
  to_ascii addr = to_ascii_split addr (split addr)

  unicode_domain : Text → Text → Text → Result Err Text → Text × Option Err
  unicode_domain addr mbox [] u_domain = (mbox, none)
  unicode_domain addr mbox domain (err e) = (nfc addr, some e)
  unicode_domain addr mbox domain (ok u_domain) = (mbox ++ (b'@' ∷ nfc u_domain), none)

  to_unicode_split : Text → Result Err (Text × Text) → Text × Option Err
  unfolding unicode_domain
  to_unicode_split addr (err e) = (nfc addr, some e)
  to_unicode_split addr (ok (mbox, domain)) =
      unicode_domain addr mbox domain (idna_to_unicode domain)

  unfoldable pub to_unicode : Text → Text × Option Err
  unfolding to_unicode_split
  to_unicode addr = to_unicode_split addr (split addr)

  unfoldable pub select_idna : Bool → Text → Text × Option Err
  select_idna ulabel addr = if ulabel then to_unicode addr else to_ascii addr
