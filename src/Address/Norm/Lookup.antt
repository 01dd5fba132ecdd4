-- ===== src/Address/Norm/Lookup.antt =====
-- `ForLookup`, `Equal` and the results of the normalizing functions.
use sirr_mesh.Base.{
  ◌≡◌, refl, sym, ◌∙◌, ap, ◌≢◌, ◌↔◌, ◌⊎◌, inl, inr, true, false, [], ◌∷◌, ◌++◌, arith, none, some,
  Option, Text, text_eq, text_eq_iff, has_rune, split_last-append, Bool-cases, ok, err,
}
use sirr_mesh.Address.Errors.{Err}
use sirr_mesh.Address.Syntax.{split}
use sirr_mesh.Address.Syntax.Splitting.{split-append}
use sirr_mesh.Address.Norm.{
  Packages, to_lower, dns_for_lookup, lookup_parts, for_lookup_split, for_lookup, equal,
}

module _ (p : Packages) where
  open p use {lower, nfc}

  -- `Equal` holds exactly of the addresses with one lookup key: the short circuit for equal strings
  -- changes nothing, and an address that cannot be split is compared by its lower case.
  pub equal_iff : (a b : Text) → (equal p a b ≡ true) ↔ ((for_lookup p a).0 ≡ (for_lookup p b).0)
  unfolding equal
  equal_iff a b = (
    λ h. elim (Bool-cases (text_eq a b)) [
      | inl e ↦ ap (λ (x : Text). (for_lookup p x).0) ((text_eq_iff a b).0 e)
      | inr n ↦ (text_eq_iff _ _).0 (rw n at h)
    ],
    λ h. elim (Bool-cases (text_eq a b)) [ inl e ↦ rw e | inr n ↦ rw n ((text_eq_iff _ _).1 h) ],
  )

  lookup_parts_lem :
      (addr m d f : Text)
      → d ≢ []
      → f ≢ []
      → lookup_parts p addr m d (f, none) ≡ (to_lower lower (nfc m) ++ (b'@' ∷ f), none)
  unfolding lookup_parts
  lookup_parts_lem addr m [] f hd hf = absurd (hd refl)
  lookup_parts_lem addr m (x ∷ d) [] hd hf = absurd (hf refl)
  lookup_parts_lem addr m (x ∷ d) (y ∷ f) hd hf = refl

  for_lookup-cons : (s : Text) → s ≢ [] → for_lookup p s ≡ for_lookup_split p s (split s)
  unfolding for_lookup
  for_lookup-cons [] h = absurd (h refl)
  for_lookup-cons (c ∷ cs) h = refl

  for_lookup_split_lem :
      (addr m d : Text)
      → for_lookup_split p addr (ok (m, d)) ≡ lookup_parts p addr m d (dns_for_lookup p d)
  unfolding for_lookup_split
  for_lookup_split_lem addr m d = refl

  -- A domain that is not empty and has a canonical form.
  pub record IsDomain (d f : Text) : Type 0 where
    pub ne_nil : d ≢ []
    pub no_at : has_rune b'@' d ≡ false
    pub form_ne_nil : f ≢ []
    pub form_no_at : has_rune b'@' f ≡ false
    pub form : dns_for_lookup p d ≡ (f, none)

  append-ne-nil : (m d : Text) → m ++ (b'@' ∷ d) ≢ []
  append-ne-nil [] d = λ e. cc
  append-ne-nil (c ∷ cs) d = λ e. cc

  for_lookup-append :
      (m d f : Text)
      → m ≢ []
      → IsDomain d f
      → for_lookup p (m ++ (b'@' ∷ d)) ≡ (to_lower lower (nfc m) ++ (b'@' ∷ f), none)
  for_lookup-append m d f hm h =
      for_lookup-cons (m ++ (b'@' ∷ d)) (append-ne-nil m d)
      ∙ rw (split-append m d hm h.ne_nil h.no_at) (
          for_lookup_split_lem (m ++ (b'@' ∷ d)) m d
          ∙ rw h.form (lookup_parts_lem (m ++ (b'@' ∷ d)) m d f h.ne_nil h.form_ne_nil))

  -- What an address is compared by: nothing if it is empty; its lower case if it cannot be split or its
  -- domain has no canonical form; else the lower case of the NFC of its local part, with the canonical
  -- form of its domain.
  abbrev pub IsKey : Text → Text → Type 0
  IsKey s k =
      ((s ≡ []) × (k ≡ []))
      ⊎ ((e : Err) × (s ≢ []) × (split s ≡ err e) × (k ≡ to_lower lower s))
      ⊎ ((m d f : Text) × (e : Err) × (s ≡ m ++ (b'@' ∷ d))
          × (m ≢ [])
          × (d ≢ [])
          × (has_rune b'@' d ≡ false)
          × (dns_for_lookup p d ≡ (f, some e))
          × (k ≡ to_lower lower s))
      ⊎ ((m d f : Text) × (s ≡ m ++ (b'@' ∷ d))
          × (m ≢ [])
          × IsDomain d f
          × (k ≡ to_lower lower (nfc m) ++ (b'@' ∷ f)))

  failed_parts :
      (addr m d f : Text) (e : Err)
      → d ≢ []
      → lookup_parts p addr m d (f, some e) ≡ (to_lower lower addr, some e)
  unfolding lookup_parts
  failed_parts addr m [] f e h = absurd (h refl)
  failed_parts addr m (x ∷ d) f e h = refl

  split_failed :
      (addr : Text) (e : Err) → for_lookup_split p addr (err e) ≡ (to_lower lower addr, some e)
  unfolding for_lookup_split
  split_failed addr e = refl

  key_of : (s k : Text) → IsKey s k → (for_lookup p s).0 ≡ k
  unfolding for_lookup
  key_of s k (inl (e, key)) = rw (e, key) refl
  key_of s k (inr (inl (e, s_ne, bad, key))) =
      ap (λ (r : Text × Option Err). r.0)
        (for_lookup-cons s s_ne ∙ ap (for_lookup_split p s) bad ∙ split_failed s e)
      ∙ sym key
  key_of s k (inr (inr (inl (m, d, f, e, cut, hm, hd, no_at, bad, key)))) =
      ap (λ x. (for_lookup p x).0) cut
      ∙ ap (λ (r : Text × Option Err). r.0)
          (for_lookup-cons (m ++ (b'@' ∷ d)) (append-ne-nil m d)
            ∙ ap (for_lookup_split p (m ++ (b'@' ∷ d))) (split-append m d hm hd no_at)
            ∙ for_lookup_split_lem (m ++ (b'@' ∷ d)) m d
            ∙ ap (lookup_parts p (m ++ (b'@' ∷ d)) m d) bad
            ∙ failed_parts (m ++ (b'@' ∷ d)) m d f e hd)
      ∙ ap (to_lower lower) (sym cut)
      ∙ sym key
  key_of s k (inr (inr (inr (m, d, f, cut, hm, h, key)))) =
      ap (λ x. (for_lookup p x).0) cut
      ∙ ap (λ (r : Text × Option Err). r.0) (for_lookup-append m d f hm h)
      ∙ sym key

  -- `Equal` holds of two addresses exactly if they are compared by the same text: the empty address by
  -- itself, an address that cannot be split, or that has a domain without a canonical form behind a
  -- local part, by its lower case as a whole, and an address with a local part and a domain that has a
  -- canonical form, not empty and without an at-sign, by that and by the local part after NFC and
  -- lower-casing. Other addresses are left out: those without a domain, and those whose domain has an
  -- empty form or one with an at-sign.
  pub equal-IsKey : (a b j k : Text) → IsKey a j → IsKey b k → (equal p a b ≡ true) ↔ (j ≡ k)
  equal-IsKey a b j k ha hb = (
    λ h. sym (key_of a j ha) ∙ (equal_iff a b).0 h ∙ key_of b k hb,
    λ h. (equal_iff a b).1 (key_of a j ha ∙ h ∙ sym (key_of b k hb)),
  )

  -- Two addresses with domains that have canonical forms are equal exactly if the forms of the
  -- domains are the same and the local parts are the same after NFC and lower-casing.
  equal-append :
      (m n d e f g : Text)
      → m ≢ []
      → n ≢ []
      → IsDomain d f
      → IsDomain e g
      → (equal p (m ++ (b'@' ∷ d)) (n ++ (b'@' ∷ e)) ≡ true)
        ↔ ((to_lower lower (nfc m) ≡ to_lower lower (nfc n)) × (f ≡ g))
  equal-append m n d e f g hm hn hd he = (
    λ h. keys (
        sym (ap (λ (r : Text × Option Err). r.0) (for_lookup-append m d f hm hd))
        ∙ (equal_iff _ _).0 h
        ∙ ap (λ (r : Text × Option Err). r.0) (for_lookup-append n e g hn he)),
    λ h.
        (equal_iff _ _).1
          (rw (for_lookup-append m d f hm hd, for_lookup-append n e g hn he) (rw (h.0, h.1))),
  )
    where
      keys :
          to_lower lower (nfc m) ++ (b'@' ∷ f) ≡ to_lower lower (nfc n) ++ (b'@' ∷ g)
          → (to_lower lower (nfc m) ≡ to_lower lower (nfc n)) × (f ≡ g)
      keys k = ground (
        arith,
        split_last-append b'@' (to_lower lower (nfc m)) f hd.form_no_at,
        split_last-append b'@' (to_lower lower (nfc n)) g he.form_no_at,
        k,
      )
