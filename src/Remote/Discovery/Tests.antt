-- ===== src/Remote/Discovery/Tests.antt =====
-- An MX that is an alias.
use sirr_mesh.Base.{◌≡◌, refl, true, false, none, [], ◌∷◌, if◌then◌else◌, text, text_eq, ok}
use sirr_mesh.Remote.Dane.{Tlsa}
use sirr_mesh.Remote.Discovery.{ExtResolver, discover_tlsa}
use sirr_mesh.Remote.Discovery.Authentic.{Authentic, discover_tlsa-Authentic}

abbrev own_record : Tlsa
own_record = record { usage = 3; selector = 1; matching_type = 1; verify = λ cert. true }

-- The answer for the name behind the alias is authenticated and empty, that for the MX has a record.
abbrev aliased : ExtResolver
aliased = record {
  check_cname_ad = λ mx. ok (false, text "host.b.org.");
  auth_lookup_cname = λ mx. ok true;
  auth_lookup_tlsa = λ name. record {
    authentic = true;
    records = if text_eq name (text "mx.a.org.") then own_record ∷ [] else [];
    lookup_err = none;
  };
  is_not_found = λ e. false;
}

-- There is a fallback to the original name, though the empty answer is authenticated.
fallback : discover_tlsa aliased (text "mx.a.org.") ≡ ok (own_record ∷ [])
unfolding discover_tlsa text_eq
fallback = refl

discover_tlsa-Authentic_example : Authentic aliased (text "mx.a.org.") (own_record ∷ [])
discover_tlsa-Authentic_example =
    discover_tlsa-Authentic aliased (text "mx.a.org.") fallback (λ e. cc)
