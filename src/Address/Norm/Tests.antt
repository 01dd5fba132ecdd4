-- ===== src/Address/Norm/Tests.antt =====
-- Runs and witnesses, with packages for ASCII: the tables of ASCII, and conversions that change
-- nothing.
use sirr_mesh.Base.{
  ℕ, ◌+◌, ◌≡◌, refl, ◌↔◌, inl, inr, true, ◌&&◌, not, [], arith, none, leb, ltb, if◌then◌else◌, Text,
  text, ok, err, Result, all,
}
use sirr_mesh.Address.Errors.{Err, external}
use sirr_mesh.Address.Syntax.{is_ascii, split}
use sirr_mesh.Address.Norm.{Packages, for_lookup, equal, dns_for_lookup, to_ascii, precis_email}
use sirr_mesh.Address.Norm.Lookup.{IsDomain, IsKey, equal-IsKey}

abbrev pub lower : ℕ → ℕ
lower c = if leb b'A' c && leb c b'Z' then c + 32 else c

-- Refuses what is not ASCII.
abbrev pub puny : Text → Result Err Text
puny d = if all (λ c. not (ltb 0x80 c)) d then ok d else err (external [])

abbrev pub ascii : Packages
ascii = record { lower = lower; nfc = λ s. s; idna_to_unicode = λ s. ok s; idna_to_ascii = puny }

for_lookup_run : for_lookup ascii (text "Me@Example.ORG.") ≡ (text "me@example.org", none)
unfolding for_lookup split
for_lookup_run = refl

-- A PRECIS profile leaves an at-sign behind the address that has no domain.
precis_postmaster : precis_email ascii (λ m. ok m) (text "postmaster") ≡ ok (text "postmaster@")
unfolding precis_email split dns_for_lookup
precis_postmaster = refl

example_IsDomain : IsDomain ascii (text "Example.org") (text "example.org")
unfolding dns_for_lookup
example_IsDomain = record {
  ne_nil = λ e. cc;
  no_at = refl;
  form_ne_nil = λ e. cc;
  form_no_at = refl;
  form = refl;
}

example-IsKey : IsKey ascii (text "Me@Example.org") (text "me@example.org")
example-IsKey = inr (
    inr (
      inr
        (text "Me", text "Example.org", text "example.org", refl, λ e. cc, example_IsDomain, refl)))

-- No local part: the address cannot be split.
unsplit-IsKey : IsKey ascii (text "@Example.org") (text "@example.org")
unfolding split
unsplit-IsKey = inr (inl (_, λ e. cc, refl, refl))

equal-IsKey_example :
    (equal ascii (text "Me@Example.org") (text "@Example.org") ≡ true)
    ↔ (text "me@example.org" ≡ text "@example.org")
equal-IsKey_example =
    equal-IsKey ascii (text "Me@Example.org") (text "@Example.org") (text "me@example.org")
      (text "@example.org") example-IsKey unsplit-IsKey

puny-is_ascii : (d a : Text) → puny d ≡ ok a → is_ascii a ≡ true
unfolding is_ascii
puny-is_ascii d a h = ground arith

to_ascii_run : to_ascii ascii (text "me@example.org") ≡ (text "me@example.org", none)
unfolding to_ascii split
to_ascii_run = refl
