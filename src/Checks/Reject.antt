-- ===== src/Checks/Reject.antt =====
-- framework/config/module/check_action.go: `ParseActionDirective`, `ParseRejectDirective` and
-- `parseEnhancedCode`.
--
-- `strconv.Atoi` is a parameter, on numbers that are not negative; the texts of the errors are left out.
pub mod Sound
mod Tests
use sirr_mesh.Base.{
  ℕ, ◌/◌, Bool, true, false, not, ◌||◌, ◌==◌, Option, none, some, List, [], ◌∷◌, if◌then◌else◌,
  Text, text, text_eq, split_on, Result, ok, err,
}
use sirr_mesh.Exterrors.{EnhancedCode, Smtp}
use sirr_mesh.Checks.Action.{FailAction}

pub data ParseError : Type 0 where
  bad_number : ParseError
  wrong_parts : ParseError
  empty_message : ParseError
  bad_class : ParseError
  wrong_count : ParseError
  bad_action : ParseError

abbrev pub Atoi : Type 0
Atoi = Text → Option ℕ

number_then : {A : Type 0} → Option ℕ → (ℕ → Result ParseError A) → Result ParseError A
number_then none next = err bad_number
number_then (some n) next = next n

enhanced_parts : Atoi → List Text → Result ParseError EnhancedCode
unfolding number_then
enhanced_parts atoi (a ∷ b ∷ c ∷ []) = number_then (atoi a) (λ major.
    number_then (atoi b) (λ subject.
      number_then (atoi c)
        (λ detail. ok (record { major = major; subject = subject; detail = detail }))))
enhanced_parts atoi _ = err wrong_parts

-- `parseEnhancedCode`
unfoldable pub parse_enhanced_code : Atoi → Text → Result ParseError EnhancedCode
unfolding enhanced_parts split_on
parse_enhanced_code atoi s = enhanced_parts atoi (split_on b'.' s)

-- The variables of `ParseRejectDirective`.
pub record Reject : Type 0 where
  pub code : ℕ
  pub ench_code : EnhancedCode
  pub msg : Text

abbrev pub default_reject : Reject
default_reject = record {
  code = 554;
  ench_code = record { major = 0; subject = 7; detail = 0 };
  msg = text "Message rejected due to a local policy";
}

abbrev pub smtp_class : ℕ → Bool
smtp_class n = n == 4 || n == 5

-- The first digit from the basic code, if there is no enhanced one.
abbrev pub fill_major : ℕ → EnhancedCode → EnhancedCode
fill_major n e = if e.major == 0 then record e { major = n } else e

code_given : ℕ → Reject → Result ParseError Reject
code_given n r =
    if smtp_class (n / 100)
    then ok (record r { code = n; ench_code = fill_major (n / 100) r.ench_code })
    else err bad_class

-- `case 1`
with_code_arg : Atoi → Text → Reject → Result ParseError Reject
unfolding number_then code_given
with_code_arg atoi a r = number_then (atoi a) (λ n. code_given n r)

enhanced_given : Atoi → Text → Reject → Result ParseError EnhancedCode → Result ParseError Reject
unfolding with_code_arg
enhanced_given atoi a r (err e) = err e
enhanced_given atoi a r (ok c) =
    if smtp_class c.major then with_code_arg atoi a (record r { ench_code = c }) else err bad_class

-- `case 2`
with_enhanced_arg : Atoi → Text → Text → Reject → Result ParseError Reject
unfolding enhanced_given parse_enhanced_code
with_enhanced_arg atoi a b r = enhanced_given atoi a r (parse_enhanced_code atoi b)

-- The switch on the number of arguments, each case falling through to the next.
parse_args : Atoi → List Text → Result ParseError Reject
unfolding with_code_arg with_enhanced_arg
parse_args atoi [] =
    ok (record default_reject { ench_code = fill_major 5 default_reject.ench_code })
parse_args atoi (a ∷ []) = with_code_arg atoi a default_reject
parse_args atoi (a ∷ b ∷ []) = with_enhanced_arg atoi a b default_reject
parse_args atoi (a ∷ b ∷ [] ∷ []) = err empty_message
parse_args atoi (a ∷ b ∷ (c ∷ msg) ∷ []) =
    with_enhanced_arg atoi a b (record default_reject { msg = c ∷ msg })
parse_args atoi _ = err wrong_count

as_smtp : Result ParseError Reject → Result ParseError Smtp
as_smtp (err e) = err e
as_smtp (ok r) = ok (record {
  code = r.code;
  enhanced_code = r.ench_code;
  message = r.msg;
  check_name = [];
  target_name = [];
  modifier_name = [];
  reason = text "reject directive used";
  misc = [];
})

-- `ParseRejectDirective`
unfoldable pub parse_reject_directive : Atoi → List Text → Result ParseError Smtp
unfolding parse_args as_smtp
parse_reject_directive atoi args = as_smtp (parse_args atoi args)

action_with : Bool → Result ParseError Smtp → Result ParseError FailAction
action_with rejecting (err e) = err e
action_with rejecting (ok se) = ok (record {
  action_quarantine = not rejecting;
  action_reject = rejecting;
  reason_override = some se;
})

-- `reject` or `quarantine`, with the other arguments.
action_named : Atoi → Bool → List Text → Result ParseError FailAction
unfolding action_with parse_reject_directive
action_named atoi rejecting [] = ok (record {
  action_quarantine = not rejecting;
  action_reject = rejecting;
  reason_override = none;
})
action_named atoi rejecting (a ∷ args) =
    action_with rejecting (parse_reject_directive atoi (a ∷ args))

-- `ParseActionDirective`
unfoldable pub parse_action_directive : Atoi → List Text → Result ParseError FailAction
unfolding action_named text_eq
parse_action_directive atoi [] = err wrong_count
parse_action_directive atoi (name ∷ args) =
    if text_eq name (text "reject")
    then action_named atoi true args
    else if text_eq name (text "quarantine")
    then action_named atoi false args
    else if text_eq name (text "ignore")
    then ok (record { action_quarantine = false; action_reject = false; reason_override = none })
    else err bad_action
