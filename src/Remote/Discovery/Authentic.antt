-- ===== src/Remote/Discovery/Authentic.antt =====
-- Records that are not authenticated are not used.
use sirr_mesh.Base.{
  ◌≡◌, ◌≢◌, ◌⊎◌, refl, ap, inl, inr, Bool, true, false, ◌&&◌, Option, none, some, List, [], ◌∷◌,
  if◌then◌else◌, arith, Bool-cases, Text, text_eq, Result, ok, err,
}
use sirr_mesh.Exterrors.{Error}
use sirr_mesh.Remote.Dane.{Tlsa}
use sirr_mesh.Remote.Discovery.{
  ExtResolver, real_error, some_record, at_name, at_mx, at_alias, with_secure_address, with_cname,
  with_name, with_address, discover_tlsa,
}

-- The records are those of an authenticated answer for the MX or for the name behind its aliases.
abbrev pub AnsweredFor : ExtResolver → Text → Text → List Tlsa → Type 0
AnsweredFor r mx rname recs =
    (name : Text) × ((name ≡ mx) ⊎ (name ≡ rname))
    × ((r.auth_lookup_tlsa name).authentic ≡ true)
    × (recs ≡ (r.auth_lookup_tlsa name).records)

-- Its address or its alias is authenticated too.
abbrev pub Authentic : ExtResolver → Text → List Tlsa → Type 0
Authentic r mx recs =
    (ad : Bool) × (rname : Text) × (r.check_cname_ad mx ≡ ok (ad, rname))
    × ((ad ≡ true) ⊎ (r.auth_lookup_cname mx ≡ ok true))
    × AnsweredFor r mx rname recs

-- These records if a test holds.
records_if :
    (b : Bool) (x : List Tlsa) {recs : List Tlsa}
    → ◌≡◌ {A = Result Error (List Tlsa)} (if b then ok x else ok []) (ok recs)
    → recs ≢ []
    → (b ≡ true) × (recs ≡ x)
records_if true x h ne = (refl, cc)
records_if false x h ne = absurd (ne cc)

module _ (r : ExtResolver) (mx rname : Text) where
  at_name-AnsweredFor :
      (o : Option Error) {recs : List Tlsa}
      → at_name (r.auth_lookup_tlsa mx) o ≡ ok recs
      → recs ≢ []
      → AnsweredFor r mx rname recs
  unfolding at_name
  at_name-AnsweredFor (some e) h ne = absurd (ground (arith, h))
  at_name-AnsweredFor none h ne =
      let (authentic, same) = records_if _ _ h ne in (mx, inl refl, authentic, same)

  at_mx-AnsweredFor :
      {recs : List Tlsa} → at_mx r mx ≡ ok recs → recs ≢ [] → AnsweredFor r mx rname recs
  unfolding at_mx
  at_mx-AnsweredFor h ne =
      at_name-AnsweredFor (real_error r (r.auth_lookup_tlsa mx).lookup_err) h ne

  alias_or_mx :
      (a b : Bool) (x : List Tlsa) {recs : List Tlsa}
      → (if a && b then ok x else at_mx r mx) ≡ ok recs
      → recs ≢ []
      → ((a ≡ true) × (recs ≡ x)) ⊎ (at_mx r mx ≡ ok recs)
  alias_or_mx true true x h ne = inl (refl, cc)
  alias_or_mx true false x h ne = inr h
  alias_or_mx false b x h ne = inr h

  at_alias-AnsweredFor :
      (o : Option Error) {recs : List Tlsa}
      → at_alias r mx (r.auth_lookup_tlsa rname) o ≡ ok recs
      → recs ≢ []
      → AnsweredFor r mx rname recs
  unfolding at_alias
  at_alias-AnsweredFor (some e) h ne = absurd (ground (arith, h))
  at_alias-AnsweredFor none h ne =
      elim (alias_or_mx (r.auth_lookup_tlsa rname).authentic
        (some_record (r.auth_lookup_tlsa rname).records) (r.auth_lookup_tlsa rname).records h ne) [
          | inl (authentic, same) ↦ (rname, inr refl, authentic, same)
          | inr same ↦ at_mx-AnsweredFor same ne
        ]

  with_secure_address-AnsweredFor :
      {recs : List Tlsa}
      → with_secure_address r mx rname ≡ ok recs
      → recs ≢ []
      → AnsweredFor r mx rname recs
  unfolding with_secure_address
  with_secure_address-AnsweredFor h ne = elim (Bool-cases (text_eq rname mx)) [
    | inl e ↦ at_mx-AnsweredFor (rw e at h) ne
    | inr e ↦ at_alias-AnsweredFor _ (rw e at h) ne
  ]

  cname_if :
      (b : Bool) {recs : List Tlsa}
      → (if b then with_secure_address r mx rname else ok []) ≡ ok recs
      → recs ≢ []
      → (b ≡ true) × (with_secure_address r mx rname ≡ ok recs)
  cname_if true h ne = (refl, h)
  cname_if false h ne = absurd (ne cc)

  with_cname-AnsweredFor :
      (o : Result Error Bool) {recs : List Tlsa}
      → with_cname r mx rname o ≡ ok recs
      → recs ≢ []
      → (o ≡ ok true) × AnsweredFor r mx rname recs
  unfolding with_cname
  with_cname-AnsweredFor (err e) h ne = absurd (ground (arith, h))
  with_cname-AnsweredFor (ok ad) h ne =
      let (yes_ad, found) = cname_if ad h ne in
      (ap (λ b. ok b) yes_ad, with_secure_address-AnsweredFor found ne)

  same_name_or :
      (b : Bool) {recs : List Tlsa}
      → (if b then ok [] else with_cname r mx rname (r.auth_lookup_cname mx)) ≡ ok recs
      → recs ≢ []
      → with_cname r mx rname (r.auth_lookup_cname mx) ≡ ok recs
  same_name_or true h ne = absurd (ne cc)
  same_name_or false h ne = h

  with_name-AnsweredFor :
      (ad : Bool) {recs : List Tlsa}
      → with_name r mx ad rname ≡ ok recs
      → recs ≢ []
      → ((ad ≡ true) ⊎ (r.auth_lookup_cname mx ≡ ok true)) × AnsweredFor r mx rname recs
  unfolding with_name
  with_name-AnsweredFor true h ne = (inl refl, with_secure_address-AnsweredFor h ne)
  with_name-AnsweredFor false h ne =
      let (cname, found) =
        with_cname-AnsweredFor (r.auth_lookup_cname mx) (same_name_or _ h ne) ne in
      (inr cname, found)

with_address-Authentic :
    (r : ExtResolver) (mx : Text) (o : Result Error (Bool × Text)) {recs : List Tlsa}
    → r.check_cname_ad mx ≡ o
    → with_address r mx o ≡ ok recs
    → recs ≢ []
    → Authentic r mx recs
unfolding with_address
with_address-Authentic r mx (err e) looked h ne = absurd (ground (arith, h))
with_address-Authentic r mx (ok (ad, [])) looked h ne = absurd (ground (arith, h))
with_address-Authentic r mx (ok (ad, c ∷ rname)) looked h ne =
    let (signed, found) = with_name-AnsweredFor r mx (c ∷ rname) ad h ne in
    (ad, c ∷ rname, looked, signed, found)

-- The records that DANE uses are all those of one authenticated answer, for the MX or for the name
-- behind its aliases, and the address of the MX or its alias is authenticated too: an answer that is
-- not signed never makes a record count.
pub discover_tlsa-Authentic :
    (r : ExtResolver) (mx : Text) {recs : List Tlsa}
    → discover_tlsa r mx ≡ ok recs
    → recs ≢ []
    → Authentic r mx recs
unfolding discover_tlsa
discover_tlsa-Authentic r mx h ne = with_address-Authentic r mx (r.check_cname_ad mx) refl h ne
