-- ===== src/Remote/Dane/Proof.antt =====
-- What proves a server authentic.
use sirr_mesh.Base.{
  ℕ, ◌≡◌, ◌⊎◌, refl, ap, inl, inr, Bool, true, false, ◌&&◌, ◌==◌, Option, none, some, List, [], ◌∷◌,
  ◌++◌, if◌then◌else◌, arith, Bool-cases,
}
use sirr_mesh.Exterrors.{Error}
use sirr_mesh.Remote.Dane.{
  Cert, Tlsa, ConnState, readable, records_for, some_verifies, roots, intermediates, no_match,
  with_anchors, usable, verify_dane,
}

-- A record of this usage that is read and matches the certificate.
abbrev pub Asserts : ℕ → List Tlsa → Cert → Type 0
Asserts n recs cert =
    (before after : List Tlsa) × (rec : Tlsa) × (recs ≡ before ++ (rec ∷ after))
    × (readable rec ≡ true)
    × (rec.usage ≡ n)
    × (rec.verify cert ≡ true)

-- A part of the certificates, in order: the anchors, each a certificate of an authority that a trust
-- anchor record asserts, and the others.
pub data Anchored (recs : List Tlsa) : List Cert → List Cert → List Cert → Type 0 where
  no_certs : Anchored recs [] [] []
  anchor :
      (cert : Cert) (certs anchors others : List Cert)
      → cert.is_ca ≡ true
      → Asserts 2 recs cert
      → Anchored recs certs anchors others
      → Anchored recs (cert ∷ certs) (cert ∷ anchors) others
  other :
      (cert : Cert) (certs anchors others : List Cert)
      → Anchored recs certs anchors others
      → Anchored recs (cert ∷ certs) anchors (cert ∷ others)

-- A complete handshake, and an end-entity record that matches the server's certificate, or a chain up
-- to certificates that trust anchor records match.
abbrev pub Authenticates : List Tlsa → ConnState → Type 0
Authenticates recs c =
    (c.handshake_complete ≡ true)
    × (Asserts 3 recs c.leaf
        ⊎ ((anchors others : List Cert) × Anchored recs (c.leaf ∷ c.chain) anchors others
            × (c.verifies anchors others ≡ true)))

Asserts-cons :
    (n : ℕ) (first : Tlsa) (recs : List Tlsa) (cert : Cert)
    → Asserts n recs cert
    → Asserts n (first ∷ recs) cert
Asserts-cons n first recs cert (before, after, rec, cut, read, of_usage, match) =
    (first ∷ before, after, rec, ap (λ l. first ∷ l) cut, read, of_usage, match)

some_verifies-Asserts :
    (n : ℕ) (recs : List Tlsa) (cert : Cert)
    → some_verifies (records_for n recs) cert ≡ true
    → Asserts n recs cert
unfolding some_verifies records_for
some_verifies-Asserts n [] cert h = absurd (ground (arith, h))
some_verifies-Asserts n (rec ∷ recs) cert h = elim (Bool-cases (readable rec && rec.usage == n)) [
  | inr e ↦ Asserts-cons n rec recs cert (some_verifies-Asserts n recs cert (rw e at h))
  | inl e ↦ elim (Bool-cases (rec.verify cert)) [
    | inl v ↦ ([], recs, rec, refl, ground (arith, e), ground (arith, e), v)
    | inr v ↦ Asserts-cons n rec recs cert (some_verifies-Asserts n recs cert (rw (e, v) at h))
  ]
]

roots-Anchored :
    (recs : List Tlsa) (certs : List Cert)
    → Anchored recs certs
        (roots (records_for 2 recs) certs)
        (intermediates (records_for 2 recs) certs)
unfolding roots intermediates
roots-Anchored recs [] = no_certs
roots-Anchored recs (cert ∷ certs) =
    elim (Bool-cases (cert.is_ca && some_verifies (records_for 2 recs) cert)) [
      | inl e ↦ rw e (
          anchor cert certs _ _ (ground (arith, e))
            (some_verifies-Asserts 2 recs cert (ground (arith, e))) (roots-Anchored recs certs))
      | inr e ↦ rw e (other cert certs _ _ (roots-Anchored recs certs))
    ]

-- A test whose failure is an error.
passed :
    (b : Bool) (x : Bool × Option Error) (v : Bool) (e : Error)
    → (if b then x else (v, some e)) ≡ (true, none)
    → (b ≡ true) × (x ≡ (true, none))
passed true x v e h = (refl, h)
passed false x v e h = absurd (ground (arith, ap (λ y. y.1) h))

with_anchors-true :
    (c : ConnState) (ta : List Tlsa)
    → with_anchors c ta ≡ (true, none)
    → c.verifies (roots ta (c.leaf ∷ c.chain)) (intermediates ta (c.leaf ∷ c.chain)) ≡ true
unfolding with_anchors
with_anchors-true c [] h = absurd (ground (arith, ap (λ x. x.1) h))
with_anchors-true c (rec ∷ ta) h = (passed _ (true, none) false (no_match c) h).0

either-true :
    (c : ConnState) (ee ta : List Tlsa)
    → (if some_verifies ee c.leaf then (true, none) else with_anchors c ta) ≡ (true, none)
    → (some_verifies ee c.leaf ≡ true)
      ⊎ (c.verifies (roots ta (c.leaf ∷ c.chain)) (intermediates ta (c.leaf ∷ c.chain)) ≡ true)
either-true c ee ta h = elim (Bool-cases (some_verifies ee c.leaf)) [
  | inl e ↦ inl e
  | inr e ↦ inr (with_anchors-true c ta (rw e at h))
]

usable-true :
    (c : ConnState) (ee ta : List Tlsa)
    → usable c ee ta ≡ (true, none)
    → (some_verifies ee c.leaf ≡ true)
      ⊎ (c.verifies (roots ta (c.leaf ∷ c.chain)) (intermediates ta (c.leaf ∷ c.chain)) ≡ true)
unfolding usable
usable-true c [] [] h = absurd (ground (arith, ap (λ x. x.0) h))
usable-true c [] (t ∷ ta) h = either-true c [] (t ∷ ta) h
usable-true c (r ∷ ee) ta h = either-true c (r ∷ ee) ta h

-- DANE overrides the X.509 verification only after a complete handshake, and only if an end-entity
-- record that is in use matches the server's own certificate, or the certificate verifies when the
-- trusted roots are certificates of the chain that are of authorities and that trust anchor records
-- in use match, and the intermediates are other certificates of the chain.
pub verify_dane-Authenticates :
    (recs : List Tlsa) (c : ConnState) → verify_dane recs c ≡ (true, none) → Authenticates recs c
unfolding verify_dane
verify_dane-Authenticates [] c h = absurd (ground (arith, ap (λ x. x.0) h))
verify_dane-Authenticates (rec ∷ recs) c h =
    let (complete, rest) =
      passed c.handshake_complete
        (usable c (records_for 3 (rec ∷ recs)) (records_for 2 (rec ∷ recs))) false _ h in
    (
      complete,
      elim (usable-true c (records_for 3 (rec ∷ recs)) (records_for 2 (rec ∷ recs)) rest) [
        | inl e ↦ inl (some_verifies-Asserts 3 (rec ∷ recs) c.leaf e)
        | inr e ↦ inr (_, _, roots-Anchored (rec ∷ recs) (c.leaf ∷ c.chain), e)
      ],
    )
