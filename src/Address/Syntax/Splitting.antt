-- ===== src/Address/Syntax/Splitting.antt =====
-- `Split` against the shape of an address: what it returns, and when it fails.
use sirr_mesh.Base.{
  ℕ, ◌≡◌, refl, ap, ◌∙◌, ◌≢◌, ◌⊎◌, inl, inr, true, false, [], ◌∷◌, ◌++◌, arith, Text, text_eq,
  text_eq_iff, has_rune, fold_all, equal_fold_ascii, has_rune-fold_all-at, split_last,
  split_last-append, split_last-some, split_last-none-has_rune, Option-cases, Bool-cases, ok, err,
}
use sirr_mesh.Address.Errors.{Err, missing_at, empty_local_part, empty_domain}
use sirr_mesh.Address.Syntax.{parts, split, postmaster}

has_rune-append : (c : ℕ) (a b : Text) → has_rune c (a ++ (c ∷ b)) ≡ true
has_rune-append c [] b = ground arith
has_rune-append c (x ∷ xs) b = ground (arith, has_rune-append c xs b)

-- Text with an at-sign does not fold to `postmaster`.
not_postmaster : (s : Text) → has_rune b'@' s ≡ true → equal_fold_ascii s postmaster ≡ false
unfolding equal_fold_ascii
not_postmaster s h = elim (Bool-cases (text_eq (fold_all s) postmaster)) [
  | inl e ↦ cc (
    has_rune-fold_all-at s,
    ap (has_rune b'@') {x = fold_all s} {y = postmaster} ((text_eq_iff _ _).0 e),
  )
  | inr e ↦ e
]

parts_lem : (m d : Text) → m ≢ [] → d ≢ [] → parts m d ≡ ok (m, d)
unfolding parts
parts_lem [] d hm hd = absurd (hm refl)
parts_lem (x ∷ m) [] hm hd = absurd (hd refl)
parts_lem (x ∷ m) (y ∷ d) hm hd = refl

parts-ok :
    (m d : Text) {a b : Text} → parts m d ≡ ok (a, b) → (m ≡ a) × (d ≡ b) × (a ≢ []) × (b ≢ [])
unfolding parts
parts-ok [] d h = cc
parts-ok (x ∷ m) [] h = cc
parts-ok (x ∷ m) (y ∷ d) h = ground arith

-- A local part and a domain that are not empty, the domain with no at-sign: joined by an at-sign,
-- they are split into just these two again. The local part may hold at-signs.
pub split-append :
    (m d : Text) → m ≢ [] → d ≢ [] → has_rune b'@' d ≡ false → split (m ++ (b'@' ∷ d)) ≡ ok (m, d)
unfolding split
split-append m d hm hd h =
    rw (not_postmaster (m ++ (b'@' ∷ d)) (has_rune-append b'@' m d), split_last-append b'@' m d h)
      (parts_lem m d hm hd)

-- What a successful split says of the address: it is `postmaster` up to case, with no domain, or it
-- is the local part, an at-sign and the domain, both not empty, and the domain has no at-sign.
abbrev pub IsSplit : Text → Text → Text → Type 0
IsSplit addr m d =
    ((equal_fold_ascii addr postmaster ≡ true) × (m ≡ addr) × (d ≡ []))
    ⊎ ((addr ≡ m ++ (b'@' ∷ d)) × (has_rune b'@' d ≡ false) × (m ≢ []) × (d ≢ []))

-- `Split` returns two parts only for an address that they make up, as `IsSplit` says.
pub split-IsSplit : (addr : Text) {m d : Text} → split addr ≡ ok (m, d) → IsSplit addr m d
unfolding split
split-IsSplit addr {m} {d} h = elim (Bool-cases (equal_fold_ascii addr postmaster)) [
  | inl e ↦ inl (e, ground arith, ground arith)
  | inr e ↦ elim (Option-cases (split_last b'@' addr)) [
    | inl n ↦ absurd (ground arith)
    | inr ((a, b), f) ↦
        inr (joined a b (split_last-some b'@' addr a b f) (parts-ok a b (rw (e, f) at h)))
  ]
]
  where
    joined :
        (a b : Text)
        → (addr ≡ a ++ (b'@' ∷ b)) × (has_rune b'@' b ≡ false)
        → (a ≡ m) × (b ≡ d) × (m ≢ []) × (d ≢ [])
        → (addr ≡ m ++ (b'@' ∷ d)) × (has_rune b'@' d ≡ false) × (m ≢ []) × (d ≢ [])
    joined a b s p = (s.0 ∙ rw (p.0, p.1), rw (← p.1) s.1, p.2, p.3)

-- Why a split fails.
abbrev pub Fails : Err → Text → Type 0
Fails missing_at addr = has_rune b'@' addr ≡ false
Fails empty_local_part addr = (d : Text) × (addr ≡ b'@' ∷ d) × (has_rune b'@' d ≡ false)
Fails empty_domain addr = (m : Text) × (addr ≡ m ++ (b'@' ∷ [])) × (m ≢ [])
Fails _ addr = ⊥

parts-err :
    (a b : Text) {e : Err}
    → parts a b ≡ err e
    → ((e ≡ empty_local_part) × (a ≡ [])) ⊎ ((e ≡ empty_domain) × (a ≢ []) × (b ≡ []))
unfolding parts
parts-err [] b h = inl (ground arith)
parts-err (x ∷ a) [] h = inr (ground arith)
parts-err (x ∷ a) (y ∷ b) h = cc

-- `Split` fails with an error only for its reason: no at-sign, nothing before the last at-sign, or
-- nothing behind it; it never fails with another error.
split-Fails : (addr : Text) {e : Err} → split addr ≡ err e → Fails e addr
unfolding split
split-Fails addr {e} h = elim (Option-cases (split_last b'@' addr)) [
  | inl n ↦
      let missing : e ≡ missing_at = ground arith in
      rw missing (split_last-none-has_rune b'@' addr n)
  | inr ((a, b), f) ↦ elim (parts-err a b {e = e} (ground (arith, f))) [
    | inl (q, z) ↦ let (j, n) = split_last-some b'@' addr a b f in rw q (b, j ∙ rw z, n)
    | inr (q, ne, z) ↦ let (j, n) = split_last-some b'@' addr a b f in rw q (a, j ∙ rw z, ne)
  ]
]
