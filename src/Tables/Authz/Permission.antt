-- ===== src/Tables/Authz/Permission.antt =====
-- What stands behind a permission.
use sirr_mesh.Base.{
  ◌≡◌, refl, ◌⊎◌, inl, inr, Bool, true, List, [], ◌∷◌, Text, text, text_eq_iff, text_eq_refl,
  member, arith, Bool-cases, Result, ok, err,
}
use sirr_mesh.Address.Errors.{Err}
use sirr_mesh.Address.Syntax.{split}
use sirr_mesh.Address.Syntax.Splitting.{IsSplit, split-IsSplit}
use sirr_mesh.Tables.Chain.{Table, values_of}
use sirr_mesh.Tables.Authz.{
  Fail, permits, some_permits, or_next, for_parts, check_addrs, with_valid, authorize_email_use,
}

-- An entry of the user's list is the address, its domain or a star.
abbrev pub Permits : List Text → Text → Type 0
Permits valid addr =
    (ent : Text) × (m : Text) × (d : Text) × (member ent valid ≡ true)
    × IsSplit addr m d
    × ((ent ≡ d) ⊎ ((ent ≡ text "*") ⊎ (ent ≡ addr)))

permits-cases :
    (ent d addr : Text) → permits ent d addr ≡ true → (ent ≡ d) ⊎ ((ent ≡ text "*") ⊎ (ent ≡ addr))
unfolding permits
permits-cases ent d addr h =
    ground (arith, text_eq_iff ent d, text_eq_iff ent (text "*"), text_eq_iff ent addr, h)

some_permits-entry :
    (valid : List Text) (d addr : Text)
    → some_permits valid d addr ≡ true
    → (ent : Text) × (member ent valid ≡ true) × ((ent ≡ d) ⊎ ((ent ≡ text "*") ⊎ (ent ≡ addr)))
unfolding some_permits
some_permits-entry [] d addr h = cc
some_permits-entry (v ∷ valid) d addr h = elim (Bool-cases (permits v d addr)) [
  | inl e ↦ (v, rw (text_eq_refl v) refl, permits-cases v d addr e)
  | inr e ↦
      let (ent, k, c) = some_permits-entry valid d addr (rw e at h) in (ent, ground (arith, k), c)
]

Split-cases :
    (r : Result Err (Text × Text))
    → ((e : Err) × (r ≡ err e)) ⊎ ((m : Text) × (d : Text) × (r ≡ ok (m, d)))
Split-cases (err e) = inl (e, refl)
Split-cases (ok (m, d)) = inr (m, d, refl)

module _ {E : Type 0} where
  check_addrs-Permits :
      (valid addrs : List Text)
      → ◌≡◌ {A = Result (Fail E) Bool} (check_addrs valid addrs) (ok true)
      → (addr : Text) × (member addr addrs ≡ true) × Permits valid addr
  unfolding check_addrs for_parts or_next
  check_addrs-Permits valid [] h = absurd (ground (arith, h))
  check_addrs-Permits valid (addr ∷ addrs) h = elim (Split-cases (split addr)) [
    | inl (e, q) ↦ absurd (ground (arith, rw q at h))
    | inr (m, d, q) ↦ elim (Bool-cases (some_permits valid d addr)) [
      | inl found ↦
          let (ent, k, c) = some_permits-entry valid d addr found in
          (addr, rw (text_eq_refl addr) refl, (ent, m, d, k, split-IsSplit addr q, c))
      | inr no_entry ↦
          let (a, k, p) = check_addrs-Permits valid addrs (rw (q, no_entry) at h) in
          (a, ground (arith, k), p)
    ]
  ]

  -- With the values that the table has for the user, the use of addresses is authorized only if a
  -- value permits one of them: as a whole, by its domain, or by being a star.
  pub authorize_email_use-Permits :
      (username : Text) (addrs valid : List Text) (mapping : Table E)
      → values_of mapping username ≡ ok valid
      → authorize_email_use username addrs mapping ≡ ok true
      → (addr : Text) × (member addr addrs ≡ true) × Permits valid addr
  unfolding authorize_email_use with_valid
  authorize_email_use-Permits username addrs valid mapping v h =
      check_addrs-Permits valid addrs (rw v at h)
