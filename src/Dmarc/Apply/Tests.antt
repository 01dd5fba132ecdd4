-- ===== src/Dmarc/Apply/Tests.antt =====
-- Runs of the verifier.
use sirr_mesh.Base.{◌≡◌, refl, ◌≢◌, false, some, text, text_eq, split_last, ok}
use sirr_mesh.Dmarc.Evaluate.{evaluate, is_aligned, no_policy, quarantine, Policy}
use sirr_mesh.Dmarc.Evaluate.Tests.{domains, policy, spoofed}
use sirr_mesh.Dmarc.Apply.{VerifyData, apply, spared, policy_for}
use sirr_mesh.Dmarc.Apply.Closed.{Enforced, apply-Enforced}

abbrev in_hand : VerifyData
in_hand = record { from_domain = text "a.org"; found = ok (some (text "a.org", policy)) }

struck : (apply domains in_hand 50 spoofed).1 ≡ quarantine
unfolding apply evaluate is_aligned text_eq split_last spared policy_for
struck = refl

spared_run : (apply domains in_hand 51 spoofed).1 ≡ no_policy
unfolding apply evaluate is_aligned text_eq split_last spared policy_for
spared_run = refl

-- A record with `pct` 0 is applied when the number drawn is 0.
pct_zero : spared (some 0) 0 ≡ false
unfolding spared
pct_zero = refl

apply-Enforced_example :
    ((apply domains in_hand 50 spoofed).1 ≢ no_policy
      → Enforced domains in_hand 50 spoofed (apply domains in_hand 50 spoofed).1)
    × ((policy : Policy)
        → Enforced domains in_hand 50 spoofed policy
        → (apply domains in_hand 50 spoofed).1 ≡ policy)
apply-Enforced_example = apply-Enforced domains in_hand 50 spoofed
