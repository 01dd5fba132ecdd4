-- ===== src/Dmarc/Evaluate/Tests.antt =====
-- Runs of the alignment check. The domains stand in for the public suffix list: the suffix of a
-- domain is what follows its last dot, and comparison is exact.
use sirr_mesh.Base.{
  ◌≡◌, refl, true, Option, none, some, List, [], ◌∷◌, ◌++◌, Text, text, text_eq, split_last,
}
use sirr_mesh.Dmarc.Evaluate.{
  pass, fail, Record, relaxed, strict, quarantine, unset_policy, Domains, AuthResult, dkim, spf,
  evaluate, is_aligned,
}
use sirr_mesh.Dmarc.Evaluate.Verdict.{evaluate-value}

abbrev after_dot : Text → Option (Text × Text) → Text
after_dot d none = d
after_dot d (some (front, tld)) = tld

abbrev last_label : Text → Option (Text × Text) → Text
last_label d none = d
last_label d (some (front, label)) = label

abbrev two_labels : Option (Text × Text) → Option Text
two_labels none = none
two_labels (some (front, tld)) = some (last_label front (split_last b'.' front) ++ (b'.' ∷ tld))

abbrev pub domains : Domains
domains = record {
  equal_fold = text_eq;
  public_suffix = λ d. after_dot d (split_last b'.' d);
  org_domain = λ d. two_labels (split_last b'.' d);
}

abbrev pub policy : Record
policy = record {
  dkim_alignment = relaxed;
  spf_alignment = strict;
  policy = quarantine;
  subdomain_policy = unset_policy;
  percent = some 50;
}

abbrev pub signed : List AuthResult
signed =
    spf (record { spf_value = fail; spf_from = text "b.org"; spf_helo = [] })
    ∷ dkim (record { dkim_value = pass; dkim_domain = text "mail.a.org" })
    ∷ []

abbrev pub spoofed : List AuthResult
spoofed =
    spf (record { spf_value = pass; spf_from = text "b.org"; spf_helo = [] })
    ∷ dkim (record { dkim_value = pass; dkim_domain = text "b.org" })
    ∷ []

relaxed_subdomain : is_aligned domains (text "a.org") (text "mail.a.org") relaxed ≡ true
unfolding is_aligned text_eq split_last
relaxed_subdomain = refl

pub signed_passes : (evaluate domains (text "a.org") policy signed).value ≡ pass
unfolding evaluate is_aligned text_eq split_last
signed_passes = refl

pub spoofed_fails : (evaluate domains (text "a.org") policy spoofed).value ≡ fail
unfolding evaluate is_aligned text_eq split_last
spoofed_fails = refl

evaluate-value_example : (evaluate domains (text "a.org") policy spoofed).value ≡ fail
unfolding is_aligned text_eq split_last
evaluate-value_example = evaluate-value domains (text "a.org") policy spoofed
