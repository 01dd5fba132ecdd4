-- ===== src/Dmarc/Evaluate/Verdict.antt =====
-- The verdict of `EvaluateAlignment`, described without its loop.
use sirr_mesh.Base.{
  ◌≡◌, Bool, true, false, not, ◌&&◌, ◌||◌, List, [], ◌∷◌, Text, arith, if◌then◌else◌,
}
use sirr_mesh.Dmarc.Evaluate.{
  AuthValue, unset, no_result, pass, fail, temp_error, AuthResult, dkim, spf, other_result, Record,
  Domains, is_aligned, is_unset, is_pass, is_temp, spf_domain, Seen, seen_nothing, see, see_all,
  conclusion, evaluate,
}

-- Some result of the list passes the test.
abbrev pub some_result : (AuthResult → Bool) → List AuthResult → Bool
some_result test [] = false
some_result test (r ∷ results) = test r || some_result test results

abbrev pub is_dkim : AuthResult → Bool
is_dkim (dkim d) = true
is_dkim _ = false

-- The value of the last SPF result of the list, or what stood before it.
abbrev pub last_spf : AuthValue → List AuthResult → AuthValue
last_spf v [] = v
last_spf v (spf r ∷ results) = last_spf r.spf_value results
last_spf v (dkim d ∷ results) = last_spf v results
last_spf v (other_result ∷ results) = last_spf v results

module _ (p : Domains) (from : Text) (rec : Record) where
  -- A DKIM signature of an aligned domain whose value passes the test.
  abbrev pub aligned_dkim : (AuthValue → Bool) → AuthResult → Bool
  aligned_dkim test (dkim d) =
      is_aligned p from d.dkim_domain rec.dkim_alignment && test d.dkim_value
  aligned_dkim test _ = false

  -- An SPF result of an aligned domain that is a pass.
  abbrev pub aligned_spf : AuthResult → Bool
  aligned_spf (spf r) =
      is_aligned p from (spf_domain r.spf_from r.spf_helo) rec.spf_alignment && is_pass r.spf_value
  aligned_spf _ = false

  or_assoc : (a b c : Bool) → ((a || b) || c) ≡ (a || (b || c))
  or_assoc a b c = ground arith

  -- What the loop gathers.
  abbrev Tallied : Seen → List AuthResult → Seen → Type 0
  Tallied s results end =
      (end.dkim_present ≡ (s.dkim_present || some_result is_dkim results))
      × (end.dkim_aligned ≡ (s.dkim_aligned || some_result (aligned_dkim is_pass) results))
      × (end.dkim_temp_fail ≡ (s.dkim_temp_fail || some_result (aligned_dkim is_temp) results))
      × (end.spf_aligned ≡ (s.spf_aligned || some_result aligned_spf results))
      × (end.spf_result.spf_value ≡ last_spf s.spf_result.spf_value results)

  see_all-Tallied :
      (s : Seen) (results : List AuthResult) → Tallied s results (see_all p from rec s results)
  unfolding see_all see
  see_all-Tallied s [] = ground arith
  see_all-Tallied s (dkim d ∷ results) =
      let h = see_all-Tallied (see p from rec s (dkim d)) results in ground (arith, h)
  see_all-Tallied s (spf r ∷ results) =
      let h = see_all-Tallied (see p from rec s (spf r)) results in ground (arith, h)
  see_all-Tallied s (other_result ∷ results) = see_all-Tallied s results

  -- The value of the verdict: none without a DKIM or an SPF result; a pass if an aligned DKIM
  -- signature passes; else a temporary error if the last SPF result is one; else a pass if an aligned
  -- SPF result passes; else a temporary error if an aligned DKIM signature has one; else a failure.
  pub evaluate-value :
      (results : List AuthResult)
      → (evaluate p from rec results).value ≡ (
          if not (some_result is_dkim results) || is_unset (last_spf unset results)
          then no_result
          else if some_result (aligned_dkim is_pass) results
          then pass
          else if is_temp (last_spf unset results)
          then temp_error
          else if some_result aligned_spf results
          then pass
          else if some_result (aligned_dkim is_temp) results
          then temp_error
          else fail)
  unfolding evaluate conclusion
  evaluate-value results = let h = see_all-Tallied seen_nothing results in ground (arith, h)
