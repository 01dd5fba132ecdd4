-- ===== src/Modify/Replace/Valid.antt =====
-- What an address can be replaced by.
use sirr_mesh.Base.{
  ◌≡◌, refl, subst, ◌≢◌, ◌⊎◌, inl, inr, true, not, ◌&&◌, Option, none, some, List, [], ◌∷◌, ◌++◌,
  All, Text, text, has_prefix, has_suffix, contains, arith, Bool-cases, Result, ok, err, ◌>>=◌,
}
use sirr_mesh.Address.Errors.{Err}
use sirr_mesh.Address.Syntax.{split}
use sirr_mesh.Address.Norm.{Packages, valid, for_lookup}
use sirr_mesh.Modify.Replace.{
  Refusal, MultiTable, found_in, all_valid, replace_one, replace_all, by_mailbox, by_parts,
  by_address, normalized, rewrite, replace_sender, first_result,
}

-- The address itself, a valid one, or a local part with an at-sign and a domain behind it.
abbrev pub Replaces : Packages → Text → Text → Type 0
Replaces p val a =
    (a ≡ val) ⊎ ((valid p a ≡ true) ⊎ ((r : Text) × (d : Text) × (a ≡ r ++ (b'@' ∷ d))))

abbrev pub Replacements : Packages → Text → Result Refusal (List Text) → Type 0
Replacements p val (err e) = Unit
Replacements p val (ok out) = (out ≢ []) × All (Replaces p val) out

Refusal-cases :
    {A : Type 0} (r : Result Refusal A) → ((e : Refusal) × (r ≡ err e)) ⊎ ((a : A) × (r ≡ ok a))
Refusal-cases (err e) = inl (e, refl)
Refusal-cases (ok a) = inr (a, refl)

first_result-ne-none :
    (p : Packages) (val : Text) (r : Result Refusal (List Text))
    → Replacements p val r
    → first_result r ≢ none
unfolding first_result
first_result-ne-none p val (err e) h k = absurd (ground (arith, k))
first_result-ne-none p val (ok []) h k = absurd (h.0 refl)
first_result-ne-none p val (ok (x ∷ xs)) h k = absurd (ground (arith, k))

-- Every error is fine, and a bind keeps what its continuation has.
abbrev Each : (Text → Type 0) → Result Refusal (List Text) → Type 0
Each P (err e) = Unit
Each P (ok out) = All P out

bind-rule :
    (P : Result Refusal (List Text) → Type 0)
    → ((e : Refusal) → P (err e))
    → {A : Type 0} (m : Result Refusal A) (f : A → Result Refusal (List Text))
    → ((a : A) → m ≡ ok a → P (f a))
    → P (m >>= f)
bind-rule P k (ok a) f h = h a refl
bind-rule P k (err e) f h = k e

module _ (p : Packages) (val : Text) where
  cons-ne-nil : {a : Text} {out : List Text} → (a ∷ out) ≢ []
  cons-ne-nil h = absurd (ground (arith, h))

  all_valid-All :
      (out rest : List Text) {r : List Text}
      → all_valid p out rest ≡ ok r
      → (r ≡ out) × All (Replaces p val) rest
  unfolding all_valid
  all_valid-All out [] h = (ground (arith, h), tt)
  all_valid-All out (a ∷ rest) h = elim (Bool-cases (valid p a)) [
    | inl e ↦ let (k, more) = all_valid-All out rest (rw e at h) in (k, (inr (inl e), more))
    | inr e ↦ absurd (ground (arith, rw e at h))
  ]

  replace_one-Replaces :
      (domain r : Text) {a : Text} → replace_one p domain r ≡ ok a → Replaces p val a
  unfolding replace_one
  replace_one-Replaces domain r {a} h =
      elim (Bool-cases (
        contains (text "@") r
        && not (has_prefix (text "\"") r)
        && not (has_suffix (text "\"") r))) [
          | inr plain ↦ inr (inr (r, domain, ground (arith, rw plain at h)))
          | inl full ↦ elim (Bool-cases (valid p r)) [
            | inl v ↦ let e : r ≡ a = ground (arith, rw (full, v) at h) in inr (inl (rw (← e) v))
            | inr v ↦ absurd (ground (arith, rw (full, v) at h))
          ]
        ]

  replace_all-Each :
      (domain : Text) (values : List Text) → Each (Replaces p val) (replace_all p domain values)
  unfolding replace_all
  replace_all-Each domain [] = tt
  replace_all-Each domain (r ∷ values) =
      bind-rule (Each (Replaces p val)) (λ e. tt) (replace_one p domain r)
        (λ a. replace_all p domain values >>= λ more. ok (a ∷ more))
        (λ a e.
          bind-rule (Each (Replaces p val)) (λ x. tt) (replace_all p domain values)
            (λ more. ok (a ∷ more))
            (λ more q. (
              replace_one-Replaces domain r e,
              subst (Each (Replaces p val)) q (replace_all-Each domain values),
            )))

  by_mailbox-Replacements :
      (domain : Text) (values : List Text) → Replacements p val (by_mailbox p val domain values)
  unfolding by_mailbox replace_all
  by_mailbox-Replacements domain [] = (cons-ne-nil, (inl refl, tt))
  by_mailbox-Replacements domain (r ∷ values) =
      bind-rule (Replacements p val) (λ e. tt) (replace_one p domain r)
        (λ a. replace_all p domain values >>= λ more. ok (a ∷ more))
        (λ a e.
          bind-rule (Replacements p val) (λ x. tt) (replace_all p domain values)
            (λ more. ok (a ∷ more))
            (λ more q. (
              cons-ne-nil,
              (
                replace_one-Replaces domain r e,
                subst (Each (Replaces p val)) q (replace_all-Each domain values),
              ),
            )))

  all_valid-Replacements :
      (r : Text) (rest : List Text) → Replacements p val (all_valid p (r ∷ rest) (r ∷ rest))
  all_valid-Replacements r rest = elim (Refusal-cases (all_valid p (r ∷ rest) (r ∷ rest))) [
    | inl (e, q) ↦ rw q tt
    | inr (out, q) ↦
        let (same, each) = all_valid-All (r ∷ rest) (r ∷ rest) q in rw (q, same) (cons-ne-nil, each)
  ]

  by_address-Replacements :
      (table : MultiTable) (norm : Text) (values : List Text)
      → Replacements p val (by_address p table val norm values)
  unfolding by_address by_parts
  by_address-Replacements table norm (r ∷ rest) = all_valid-Replacements r rest
  by_address-Replacements table norm [] = by_split (split norm)
    where
      by_split : (s : Result Err (Text × Text)) → Replacements p val (by_parts p table val s)
      by_split (err e) = (cons-ne-nil, (inl refl, tt))
      by_split (ok (mbox, domain)) =
          bind-rule (Replacements p val) (λ e. tt) (found_in (table mbox)) (by_mailbox p val domain)
            (λ values q. by_mailbox-Replacements domain values)

  normalized-Replacements :
      (table : MultiTable) (norm : Text × Option Err)
      → Replacements p val (normalized p table val norm)
  unfolding normalized
  normalized-Replacements table (norm, some e) = tt
  normalized-Replacements table (norm, none) =
      bind-rule (Replacements p val) (λ e. tt) (found_in (table norm)) (by_address p table val norm)
        (λ values q. by_address-Replacements table norm values)

-- What an address is replaced by is never empty, and each replacement is the address itself, a valid
-- address, or a text with an at-sign and a domain behind it; so that `RewriteSender` never panics.
pub rewrite-Replacements :
    (p : Packages) (table : MultiTable) (val : Text)
    → Replacements p val (rewrite p table val) × (replace_sender p true table val ≢ none)
unfolding rewrite replace_sender
rewrite-Replacements p table val =
    let h = normalized-Replacements p val table (for_lookup p val) in
    (h, first_result-ne-none p val (normalized p table val (for_lookup p val)) h)
