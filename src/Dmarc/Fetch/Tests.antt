-- ===== src/Dmarc/Fetch/Tests.antt =====
-- Runs of the lookup of the From domain and of its record.
use sirr_mesh.Base.{
  ◌≡◌, refl, Option, none, some, List, [], ◌∷◌, ◌++◌, Text, text, text_eq, split_last, has_prefix,
  ok, err, if◌then◌else◌, equal_fold_ascii,
}
use sirr_mesh.Address.Syntax.{split}
use sirr_mesh.Dmarc.Evaluate.Tests.{domains, policy}
use sirr_mesh.Dmarc.Fetch.{multiple_from, Resolver, extract_from_domain, fetch_record, dmarc_only}
use sirr_mesh.Dmarc.Fetch.Found.{OnlyFrom, Identifies, extract_from_domain-Identifies}

-- Only the organizational domain has records, one of them for DMARC.
abbrev resolver : Resolver
resolver = record {
  lookup_txt = λ d.
      if text_eq d (text "_dmarc.a.org.")
      then (text "v=spf1" ∷ text "v=DMARC1; p=none" ∷ [], none)
      else ([], none);
  fqdn = λ d. d ++ text ".";
  parse_record = λ t. some policy;
}

found_at_org : fetch_record domains resolver (text "news.a.org") ≡ ok (some (text "a.org", policy))
unfolding fetch_record text_eq split_last dmarc_only has_prefix
found_at_org = refl

abbrev one_address : Text → Option (List Text)
one_address field = some (field ∷ [])

two_fields :
    extract_from_domain one_address (text "me@a.org" ∷ text "you@b.org" ∷ []) ≡ err multiple_from
unfolding extract_from_domain
two_fields = refl

one_field : extract_from_domain one_address ([] ∷ text "me@a.org" ∷ []) ≡ ok (text "a.org")
unfolding extract_from_domain split equal_fold_ascii split_last
one_field = refl

extract_from_domain-Identifies_example :
    (v : Text) × OnlyFrom v ([] ∷ text "me@a.org" ∷ []) × Identifies one_address v (text "a.org")
extract_from_domain-Identifies_example =
    extract_from_domain-Identifies one_address ([] ∷ text "me@a.org" ∷ []) one_field
