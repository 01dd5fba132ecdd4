-- ===== src/Pipeline/Steps.antt =====
-- A command of a delivery changes its state and may fail; what it has changed by then stays changed.
use sirr_mesh.Base.{◌≡◌, refl, Option, none, some, Result, ok, err, arith}
use sirr_mesh.Exterrors.{Error}
use sirr_mesh.Checks.States.{Runner}
use sirr_mesh.Pipeline.Config.{Delivering}

abbrev pub M : Type 0 → Type 0
M A = Delivering → Delivering × Result Error A

abbrev pub after :
    {A B : Type 0} → Delivering × Result Error A → (A → M B) → Delivering × Result Error B
after (d, ok a) f = f a d
after (d, err e) f = (d, err e)

infixl 5 ◌>>=◌ ◌>>◌
abbrev pub ◌>>=◌ : {A B : Type 0} → M A → (A → M B) → M B
◌>>=◌ m f d = after (m d) f

abbrev pub ◌>>◌ : {B : Type 0} → M (Unit {0}) → M B → M B
◌>>◌ m k d = after (m d) (λ _. k)

abbrev pub pure : {A : Type 0} → A → M A
pure a d = (d, ok a)

-- A call whose result changes nothing.
abbrev pub lift : {A : Type 0} → Result Error A → M A
lift r d = (d, r)

abbrev pub fail_with : Option Error → Result Error (Unit {0})
fail_with none = ok tt
fail_with (some e) = err e

abbrev pub with_runner : Delivering → Runner × Option Error → Delivering × Result Error (Unit {0})
with_runner d (r, e) = (record d { runner = r }, fail_with e)

-- A call of the check runner.
abbrev pub run_check : (Runner → Runner × Option Error) → M (Unit {0})
run_check call d = with_runner d (call d.runner)

-- A command that was successful: its first step was, and the second one from there.
pub after-ok :
    {A B : Type 0} (x : Delivering × Result Error A) (f : A → M B) {b : B}
    → (after x f).1 ≡ ok b
    → (a : A) × (x.1 ≡ ok a) × (after x f ≡ f a x.0)
after-ok (d, ok a) f h = (a, refl, refl)
after-ok (d, err e) f h = absurd (ground (arith, h))
