-- ===== src/Checks/Results/Effect.antt =====
-- What a message becomes by its results.
use sirr_mesh.Base.{
  ◌≡◌, refl, ◌∙◌, inl, inr, Bool, true, false, ◌||◌, Option, none, some, List, [], ◌∷◌, Text,
  Bool-cases,
}
use sirr_mesh.Dmarc.Evaluate.{Policy, unset_policy, no_policy, reject, quarantine, EvalResult}
use sirr_mesh.Checks.Runner.{Merged, is_error}
use sirr_mesh.Checks.Results.{
  Formats, Message, has_results, with_auth, add_raw, finish_results, with_policy, dmarc_step,
  apply_results,
}

abbrev pub asks_reject : Option (EvalResult × Policy) → Bool
asks_reject (some (res, reject)) = true
asks_reject _ = false

abbrev pub asks_quarantine : Option (EvalResult × Policy) → Bool
asks_quarantine (some (res, quarantine)) = true
asks_quarantine _ = false

module _ (f : Formats) (host : Text) (m : Merged) where
  add_raw-quarantined :
      (fields : List Text) (msg : Message) → (add_raw f fields msg).quarantined ≡ msg.quarantined
  unfolding add_raw
  add_raw-quarantined [] msg = refl
  add_raw-quarantined (x ∷ fields) msg =
      add_raw-quarantined fields (record msg { header = f.add_field x msg.header })

  finish_results-quarantined :
      (d : Option EvalResult) (msg : Message)
      → (finish_results f host m d msg).quarantined ≡ msg.quarantined
  unfolding finish_results with_auth
  finish_results-quarantined d msg =
      add_raw-quarantined m.merged_header (with_auth f host m d msg)
      ∙ elim (Bool-cases (has_results m.merged_auth d)) [ inl e ↦ rw e refl | inr e ↦ rw e refl ]

  dmarc_step-effect :
      (dmarc : Option (EvalResult × Policy)) (msg : Message)
      → (is_error (dmarc_step f host m dmarc msg).1 ≡ asks_reject dmarc)
        × ((dmarc_step f host m dmarc msg).0.quarantined
            ≡ (asks_quarantine dmarc || msg.quarantined))
  unfolding dmarc_step with_policy
  dmarc_step-effect none msg = (refl, finish_results-quarantined none msg)
  dmarc_step-effect (some (res, reject)) msg = (refl, refl)
  dmarc_step-effect (some (res, quarantine)) msg =
      (refl, finish_results-quarantined (some res) (record msg { quarantined = true }))
  dmarc_step-effect (some (res, unset_policy)) msg =
      (refl, finish_results-quarantined (some res) msg)
  dmarc_step-effect (some (res, no_policy)) msg = (refl, finish_results-quarantined (some res) msg)

  -- A message is refused exactly if DMARC asks to reject it, and it is quarantined exactly if it was
  -- already, a check has quarantined it, or DMARC asks for that.
  pub apply_results-effect :
      (dmarc : Option (EvalResult × Policy)) (msg : Message)
      → (is_error (apply_results f host m dmarc msg).1 ≡ asks_reject dmarc)
        × ((apply_results f host m dmarc msg).0.quarantined
            ≡ (asks_quarantine dmarc || (m.merged_quarantine || msg.quarantined)))
  unfolding apply_results
  apply_results-effect dmarc msg =
      dmarc_step-effect dmarc (record msg { quarantined = m.merged_quarantine || msg.quarantined })
