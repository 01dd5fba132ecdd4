-- ===== src/Address/Norm/Ascii.antt =====
-- `ToASCII` and `IsASCII`.
use sirr_mesh.Base.{
  ◌≡◌, refl, inl, inr, true, not, [], ◌∷◌, arith, none, Text, ltb, all, all-append, Bool-cases,
  Result, ok, err,
}
use sirr_mesh.Address.Errors.{Err}
use sirr_mesh.Address.Syntax.{split, is_ascii}
use sirr_mesh.Address.Norm.{Packages, ascii_domain, to_ascii_split, to_ascii}

module _ (p : Packages) where
  open p use {idna_to_ascii}

  module _ (idna_is_ascii : (d a : Text) → idna_to_ascii d ≡ ok a → is_ascii a ≡ true) where
    ascii_domain-is_ascii :
        (addr m d : Text) (r : Result Err Text) {s : Text}
        → idna_to_ascii d ≡ r
        → is_ascii m ≡ true
        → ascii_domain p addr m d r ≡ (s, none)
        → is_ascii s ≡ true
    unfolding ascii_domain is_ascii
    ascii_domain-is_ascii addr m [] r e hm h = ground arith
    ascii_domain-is_ascii addr m (x ∷ d) (err q) e hm h = cc
    ascii_domain-is_ascii addr m (x ∷ d) (ok a) e hm h =
        ground (arith, all-append (λ c. not (ltb 0x80 c)) m (b'@' ∷ a), idna_is_ascii (x ∷ d) a e)

    to_ascii_split-is_ascii :
        (addr : Text) (r : Result Err (Text × Text)) {s : Text}
        → to_ascii_split p addr r ≡ (s, none)
        → is_ascii s ≡ true
    unfolding to_ascii_split
    to_ascii_split-is_ascii addr (err e) h = cc
    to_ascii_split-is_ascii addr (ok (m, d)) {s} h =
        elim (Bool-cases (all (λ ch. not (ltb 128 ch)) m)) [
          | inl e ↦
              ascii_domain-is_ascii addr m d (idna_to_ascii d) refl (unfold is_ascii in e)
                (rw e at h)
          | inr e ↦ cc (rw e at h)
        ]

    -- If `idna.ToASCII` gives ASCII, then so does `ToASCII` wherever it returns no error.
    to_ascii-is_ascii : (addr : Text) {s : Text} → to_ascii p addr ≡ (s, none) → is_ascii s ≡ true
    unfolding to_ascii
    to_ascii-is_ascii addr h = to_ascii_split-is_ascii addr (split addr) h
