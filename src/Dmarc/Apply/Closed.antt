-- ===== src/Dmarc/Apply/Closed.antt =====
-- When a DMARC policy strikes.
use sirr_mesh.Base.{
  ◌≡◌, refl, ap, ◌≤◌, ◌≢◌, ◌⊎◌, inl, inr, Bool, true, false, Option, none, some, List, [], ◌∷◌, ℕ,
  Text, arith, Result, ok, err, Bool-cases,
}
use sirr_mesh.Dmarc.Evaluate.{
  fail, temp_error, perm_error, other_value, unset, AuthValue, no_result, pass, Policy,
  unset_policy, no_policy, quarantine, reject, Record, Domains, AuthResult, dkim, spf, other_result,
  is_pass, is_unset, evaluate,
}
use sirr_mesh.Dmarc.Evaluate.Verdict.{some_result, is_dkim, last_spf, aligned_dkim, evaluate-value}
use sirr_mesh.Dmarc.Fetch.{Fail, dns_error}
use sirr_mesh.Dmarc.Apply.{
  VerifyData, is_unset_policy, failed, spared, policy_for, no_action, judge, act, apply,
}

-- The number drawn is not above `pct`, or the record has no such key.
abbrev pub IsStruck : Option ℕ → ℕ → Type 0
IsStruck percent draw = (percent ≡ none) ⊎ ((n : ℕ) × (percent ≡ some n) × (draw ≤ n))

-- The `sp` key is for the subdomains of the domain that has the record, if the record has the key.
abbrev pub IsPolicyFor : Domains → Text → Text → Record → Policy → Type 0
IsPolicyFor p from domain rec policy =
    ((p.equal_fold domain from ≡ false)
      × (rec.subdomain_policy ≢ unset_policy)
      × (policy ≡ rec.subdomain_policy))
    ⊎ (((p.equal_fold domain from ≡ true) ⊎ (rec.subdomain_policy ≡ unset_policy))
        × (policy ≡ rec.policy))

-- The policy is `reject` since the lookup had a temporary failure, or it is the policy that the
-- record has for a message that does not pass and is not spared by `pct`.
abbrev pub Enforced : Domains → VerifyData → ℕ → List AuthResult → Policy → Type 0
Enforced p fetch draw results policy =
    ((n : Bool) × (fetch.found ≡ err (dns_error n true)) × (policy ≡ reject))
    ⊎ ((domain : Text) × (rec : Record) × (fetch.found ≡ ok (some (domain, rec)))
        × ((evaluate p fetch.from_domain rec results).value ≢ pass)
        × ((evaluate p fetch.from_domain rec results).value ≢ no_result)
        × IsStruck rec.percent draw
        × IsPolicyFor p fetch.from_domain domain rec policy)

no_action-false : (v : AuthValue) → no_action v ≡ false → (v ≢ pass) × (v ≢ no_result)
no_action-false v h =
    (λ e. ground (arith, ap no_action e, h), λ e. ground (arith, ap no_action e, h))

false-no_action : (v : AuthValue) → v ≢ pass → v ≢ no_result → no_action v ≡ false
false-no_action unset h k = refl
false-no_action no_result h k = absurd (k refl)
false-no_action pass h k = absurd (h refl)
false-no_action fail h k = refl
false-no_action temp_error h k = refl
false-no_action perm_error h k = refl
false-no_action (other_value t) h k = refl

spared-IsStruck :
    (percent : Option ℕ) (draw : ℕ) → spared percent draw ≡ false → IsStruck percent draw
unfolding spared
spared-IsStruck none draw h = inl refl
spared-IsStruck (some n) draw h = inr (n, refl, ground (arith, h))

IsStruck-spared :
    (percent : Option ℕ) (draw : ℕ) → IsStruck percent draw → spared percent draw ≡ false
unfolding spared
IsStruck-spared percent draw (inl e) = rw e refl
IsStruck-spared percent draw (inr (n, e, le)) = rw e (ground (arith, le))

is_unset_policy-true : (q : Policy) → is_unset_policy q ≡ true → q ≡ unset_policy
is_unset_policy-true unset_policy h = refl
is_unset_policy-true no_policy h = absurd (ground (arith, h))
is_unset_policy-true quarantine h = absurd (ground (arith, h))
is_unset_policy-true reject h = absurd (ground (arith, h))

is_unset_policy-false : (q : Policy) → q ≢ unset_policy → is_unset_policy q ≡ false
is_unset_policy-false unset_policy h = absurd (h refl)
is_unset_policy-false no_policy h = refl
is_unset_policy-false quarantine h = refl
is_unset_policy-false reject h = refl

policy_for-IsPolicyFor :
    (p : Domains) (from domain : Text) (rec : Record)
    → IsPolicyFor p from domain rec (policy_for p from domain rec)
unfolding policy_for
policy_for-IsPolicyFor p from domain rec = elim (Bool-cases (p.equal_fold domain from)) [
  | inl own ↦ inr (inl own, rw own refl)
  | inr sub ↦ elim (Bool-cases (is_unset_policy rec.subdomain_policy)) [
    | inl e ↦ inr (inr (is_unset_policy-true rec.subdomain_policy e), rw (sub, e) refl)
    | inr e ↦ inl (sub, λ k. ground (arith, ap is_unset_policy k, e), rw (sub, e) refl)
  ]
]

IsPolicyFor-policy_for :
    (p : Domains) (from domain : Text) (rec : Record) (policy : Policy)
    → IsPolicyFor p from domain rec policy
    → policy_for p from domain rec ≡ policy
unfolding policy_for
IsPolicyFor-policy_for p from domain rec q (inl (sub, set, e)) =
    rw (sub, is_unset_policy-false rec.subdomain_policy set, e) refl
IsPolicyFor-policy_for p from domain rec q (inr (inl own, e)) = rw (own, e) refl
IsPolicyFor-policy_for p from domain rec q (inr (inr no_key, e)) =
    elim (Bool-cases (p.equal_fold domain from)) [
      | inl own ↦ rw (own, e) refl
      | inr sub ↦ rw (sub, ap is_unset_policy no_key, e) refl
    ]

failed-Enforced :
    (p : Domains) (from : Text) (e : Fail) (draw : ℕ) (results : List AuthResult)
    → (failed from e).1 ≢ no_policy
    → Enforced p (record { from_domain = from; found = err e }) draw results (failed from e).1
unfolding failed
failed-Enforced p from (dns_error n true) draw results h = inl (n, refl, refl)
failed-Enforced p from (dns_error n false) draw results h = absurd (h refl)
failed-Enforced p from e draw results h = absurd (h refl)

judge-Enforced :
    (p : Domains) (from domain : Text) (rec : Record) (draw : ℕ) (results : List AuthResult)
    → (judge p from domain rec draw (evaluate p from rec results)).1 ≢ no_policy
    → Enforced p
        (record { from_domain = from; found = ok (some (domain, rec)) })
        draw
        results
        (judge p from domain rec draw (evaluate p from rec results)).1
unfolding judge
judge-Enforced p from domain rec draw results h =
    elim (Bool-cases (no_action (evaluate p from rec results).value)) [
      | inl passes ↦ absurd (ground (arith, passes))
      | inr fails ↦ elim (Bool-cases (spared rec.percent draw)) [
        | inl lucky ↦ absurd (ground (arith, fails, lucky))
        | inr struck ↦ inr (
          domain,
          rec,
          refl,
          (no_action-false _ fails).0,
          (no_action-false _ fails).1,
          spared-IsStruck rec.percent draw struck,
          rw (fails, struck) (policy_for-IsPolicyFor p from domain rec),
        )
      ]
    ]

act-Enforced :
    (p : Domains) (from : Text) (draw : ℕ) (results : List AuthResult)
    (found : Result Fail (Option (Text × Record)))
    → (act p from draw results found).1 ≢ no_policy
    → Enforced p
        (record { from_domain = from; found = found })
        draw
        results
        (act p from draw results found).1
unfolding act
act-Enforced p from draw results (err e) h = failed-Enforced p from e draw results h
act-Enforced p from draw results (ok none) h = absurd (h refl)
act-Enforced p from draw results (ok (some (domain, rec))) h =
    judge-Enforced p from domain rec draw results h

Enforced-apply :
    (p : Domains) (fetch : VerifyData) (draw : ℕ) (results : List AuthResult) (policy : Policy)
    → Enforced p fetch draw results policy
    → (apply p fetch draw results).1 ≡ policy
unfolding apply act judge failed
Enforced-apply p fetch draw results q (inl (n, e, h)) = rw (e, h) refl
Enforced-apply p fetch draw results q
      (inr (domain, rec, e, not_pass, not_none, struck, of_policy)) =
    rw
      (
        e,
        false-no_action (evaluate p fetch.from_domain rec results).value not_pass not_none,
        IsStruck-spared rec.percent draw struck,
      )
      (IsPolicyFor-policy_for p fetch.from_domain domain rec q of_policy)

-- A policy other than `none` is enforced only on a temporary failure of the lookup (and is `reject`
-- then), or on a message that a record was found for, that neither passes nor has the result `none`,
-- for which no number above `pct` was drawn. It is the `sp` policy of the record for a domain other
-- than the record's own, if there is one, and the `p` policy otherwise. In these cases it is enforced.
pub apply-Enforced :
    (p : Domains) (fetch : VerifyData) (draw : ℕ) (results : List AuthResult)
    → ((apply p fetch draw results).1 ≢ no_policy
        → Enforced p fetch draw results (apply p fetch draw results).1)
      × ((policy : Policy)
          → Enforced p fetch draw results policy
          → (apply p fetch draw results).1 ≡ policy)
unfolding apply
apply-Enforced p fetch draw results =
    (act-Enforced p fetch.from_domain draw results fetch.found, Enforced-apply p fetch draw results)

module _ (p : Domains) (from : Text) (rec : Record) where
  aligned_dkim-is_dkim :
      (results : List AuthResult)
      → some_result (aligned_dkim p from rec is_pass) results ≡ true
      → some_result is_dkim results ≡ true
  aligned_dkim-is_dkim [] h = h
  aligned_dkim-is_dkim (dkim d ∷ results) h = refl
  aligned_dkim-is_dkim (spf r ∷ results) h = aligned_dkim-is_dkim results h
  aligned_dkim-is_dkim (other_result ∷ results) h = aligned_dkim-is_dkim results h

  -- A message that an aligned domain has signed, with a signature that passes, is not acted on, for
  -- every other result, every record that was found and every draw.
  apply-signed :
      (domain : Text) (draw : ℕ) (results : List AuthResult)
      → some_result (aligned_dkim p from rec is_pass) results ≡ true
      → (apply p (record { from_domain = from; found = ok (some (domain, rec)) }) draw results).1
        ≡ no_policy
  unfolding apply act judge
  apply-signed domain draw results h =
      rw (evaluate-value p from rec results, aligned_dkim-is_dkim results h, h)
        (elim (Bool-cases (is_unset (last_spf unset results))) [
          | inl e ↦ rw e refl
          | inr e ↦ rw e refl
        ])
