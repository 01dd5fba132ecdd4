-- ===== src/Checks/Reject/Tests.antt =====
-- Directives of a configuration.
use sirr_mesh.Base.{
  ℕ, ◌≡◌, refl, false, none, some, [], ◌∷◌, if◌then◌else◌, text, text_eq, split_on, Result, ok, err,
}
use sirr_mesh.Exterrors.{Smtp}
use sirr_mesh.Checks.Reject.{
  ParseError, Atoi, bad_action, parse_enhanced_code, parse_reject_directive, parse_action_directive,
}
use sirr_mesh.Checks.Reject.Sound.{FitsSmtp, short_args, parse_reject_directive-FitsSmtp}

-- Knows the numbers that the tests use.
abbrev few : Atoi
few s =
    if text_eq s (text "450")
    then some 450
    else if text_eq s (text "5")
    then some 5
    else if text_eq s (text "1")
    then some 1
    else none

abbrev major_of : Result ParseError Smtp → ℕ
major_of (ok se) = se.enhanced_code.major
major_of (err e) = 0

parse_reject_directive-FitsSmtp_example :
    FitsSmtp (short_args (text "450" ∷ [])) (parse_reject_directive few (text "450" ∷ []))
parse_reject_directive-FitsSmtp_example = parse_reject_directive-FitsSmtp few (text "450" ∷ [])

-- With both codes given, their classes need not be the same.
two_classes :
    FitsSmtp false (parse_reject_directive few (text "450" ∷ text "5.1.1" ∷ []))
    × (major_of (parse_reject_directive few (text "450" ∷ text "5.1.1" ∷ [])) ≡ 5)
unfolding parse_reject_directive parse_enhanced_code split_on text_eq
two_classes = (parse_reject_directive-FitsSmtp few (text "450" ∷ text "5.1.1" ∷ []), refl)

unknown_action : parse_action_directive few (text "drop" ∷ []) ≡ err bad_action
unfolding parse_action_directive text_eq
unknown_action = refl
