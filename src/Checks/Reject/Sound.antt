-- ===== src/Checks/Reject/Sound.antt =====
-- What a reject directive is parsed to.
use sirr_mesh.Base.{
  ℕ, ◌/◌, ◌≡◌, ◌≢◌, refl, inl, inr, Bool, true, false, ◌==◌, Option, none, some, List, [], ◌∷◌,
  arith, Bool-cases, Text, Result, ok, err,
}
use sirr_mesh.Exterrors.{EnhancedCode, Smtp}
use sirr_mesh.Checks.Reject.{
  ParseError, Atoi, number_then, parse_enhanced_code, Reject, default_reject, smtp_class,
  fill_major, code_given, with_code_arg, enhanced_given, with_enhanced_arg, parse_args, as_smtp,
  parse_reject_directive,
}

-- A code and an enhanced code of the classes 4 and 5, and a message; `short` asks for one class.
abbrev pub Fit : Bool → ℕ → EnhancedCode → Text → Type 0
Fit short code e msg =
    (smtp_class (code / 100) ≡ true)
    × (smtp_class e.major ≡ true)
    × (msg ≢ [])
    × (short ≡ true → e.major ≡ code / 100)

abbrev pub Fits : Bool → Result ParseError Reject → Type 0
Fits short (err e) = Unit {0}
Fits short (ok r) = Fit short r.code r.ench_code r.msg

-- An enhanced code that is not set, or one of the two classes.
abbrev Given : Bool → ℕ → Type 0
Given true n = n ≡ 0
Given false n = smtp_class n ≡ true

fill_major-class :
    (short : Bool) (n : ℕ) (e : EnhancedCode)
    → smtp_class n ≡ true
    → Given short e.major
    → (smtp_class (fill_major n e).major ≡ true) × (short ≡ true → (fill_major n e).major ≡ n)
fill_major-class true n e h g = elim (Bool-cases (e.major == 0)) [
  | inl z ↦ rw z (h, λ _. refl)
  | inr z ↦ absurd (ground (arith, z, g))
]
fill_major-class false n e h g = elim (Bool-cases (e.major == 0)) [
  | inl z ↦ rw z (h, λ k. absurd (ground (arith, k)))
  | inr z ↦ rw z (g, λ k. absurd (ground (arith, k)))
]

code_given-Fits :
    (short : Bool) (n : ℕ) (r : Reject)
    → Given short r.ench_code.major
    → r.msg ≢ []
    → Fits short (code_given n r)
unfolding code_given
code_given-Fits short n r g m = elim (Bool-cases (smtp_class (n / 100))) [
  | inl e ↦
      let (class, same) = fill_major-class short (n / 100) r.ench_code e g in
      rw e (e, class, m, same)
  | inr e ↦ rw e tt
]

with_code_arg-Fits :
    (short : Bool) (atoi : Atoi) (a : Text) (r : Reject)
    → Given short r.ench_code.major
    → r.msg ≢ []
    → Fits short (with_code_arg atoi a r)
unfolding with_code_arg
with_code_arg-Fits short atoi a r g m = number_then-Fits (atoi a)
  where
    number_then-Fits : (o : Option ℕ) → Fits short (number_then o (λ n. code_given n r))
    number_then-Fits none = tt
    number_then-Fits (some n) = code_given-Fits short n r g m

enhanced_given-Fits :
    (atoi : Atoi) (a : Text) (r : Reject) (o : Result ParseError EnhancedCode)
    → r.msg ≢ []
    → Fits false (enhanced_given atoi a r o)
unfolding enhanced_given
enhanced_given-Fits atoi a r (err e) m = tt
enhanced_given-Fits atoi a r (ok c) m = elim (Bool-cases (smtp_class c.major)) [
  | inl e ↦ rw e (with_code_arg-Fits false atoi a (record r { ench_code = c }) e m)
  | inr e ↦ rw e tt
]

abbrev pub short_args : List Text → Bool
short_args [] = true
short_args (a ∷ []) = true
short_args _ = false

default_msg : default_reject.msg ≢ []
default_msg h = absurd (ground (arith, h))

parse_args-Fits : (atoi : Atoi) (args : List Text) → Fits (short_args args) (parse_args atoi args)
unfolding parse_args with_enhanced_arg
parse_args-Fits atoi [] = (refl, refl, default_msg, λ _. refl)
parse_args-Fits atoi (a ∷ []) = with_code_arg-Fits true atoi a default_reject refl default_msg
parse_args-Fits atoi (a ∷ b ∷ []) =
    enhanced_given-Fits atoi a default_reject (parse_enhanced_code atoi b) default_msg
parse_args-Fits atoi (a ∷ b ∷ [] ∷ []) = tt
parse_args-Fits atoi (a ∷ b ∷ (c ∷ msg) ∷ []) =
    enhanced_given-Fits atoi a (record default_reject { msg = c ∷ msg })
      (parse_enhanced_code atoi b) (λ h. absurd (ground (arith, h)))
parse_args-Fits atoi (a ∷ b ∷ [] ∷ d ∷ rest) = tt
parse_args-Fits atoi (a ∷ b ∷ (x ∷ c) ∷ d ∷ rest) = tt

abbrev pub FitsSmtp : Bool → Result ParseError Smtp → Type 0
FitsSmtp short (err e) = Unit {0}
FitsSmtp short (ok se) = Fit short se.code se.enhanced_code se.message

as_smtp-FitsSmtp :
    (short : Bool) (o : Result ParseError Reject) → Fits short o → FitsSmtp short (as_smtp o)
unfolding as_smtp
as_smtp-FitsSmtp short (err e) h = tt
as_smtp-FitsSmtp short (ok r) h = h

-- A reject directive that is accepted gives a basic and an enhanced code of the classes 4 and 5 and a
-- message that is not empty; and the two classes are the same if the directive gives no enhanced code.
pub parse_reject_directive-FitsSmtp :
    (atoi : Atoi) (args : List Text) → FitsSmtp (short_args args) (parse_reject_directive atoi args)
unfolding parse_reject_directive
parse_reject_directive-FitsSmtp atoi args =
    as_smtp-FitsSmtp (short_args args) (parse_args atoi args) (parse_args-Fits atoi args)
