-- ===== src/Tables/Chain/Steps.antt =====
-- A chain made of two chains.
use sirr_mesh.Base.{
  ◌≡◌, refl, sym, Bool, true, false, Option, none, some, List, [], ◌∷◌, ◌++◌, Text, Result, ok, err,
  ◌>>=◌,
}
use sirr_mesh.Tables.Chain.{Table, look_up_keys, after_step, run_steps}

module _ {E : Type 0} where
  -- Nothing leads to nothing.
  run_steps-nil : (steps : List (Table E × Bool)) → run_steps steps [] ≡ ok []
  unfolding run_steps after_step look_up_keys
  run_steps-nil [] = refl
  run_steps-nil ((t, o) ∷ steps) = run_steps-nil steps

  after_step-bind :
      (x : Result E (Option (List Text))) (optional : Bool) (result : List Text)
      (steps more : List (Table E × Bool))
      → ((found : List Text)
          → run_steps (steps ++ more) found ≡ (run_steps steps found >>= run_steps more))
      → after_step x optional result (λ found. run_steps (steps ++ more) found)
        ≡ (after_step x optional result (λ found. run_steps steps found) >>= run_steps more)
  unfolding after_step
  after_step-bind (err e) o result steps more h = refl
  after_step-bind (ok none) true result steps more h = h result
  after_step-bind (ok none) false result steps more h = sym (run_steps-nil more)
  after_step-bind (ok (some found)) o result steps more h = h found

  -- A chain can be cut anywhere: the steps behind the cut take what those in front of it found, which
  -- is nothing where a step that is not optional misses a key.
  pub run_steps-append :
      (steps more : List (Table E × Bool)) (result : List Text)
      → run_steps (steps ++ more) result ≡ (run_steps steps result >>= run_steps more)
  unfolding run_steps
  run_steps-append [] more result = refl
  run_steps-append ((t, o) ∷ steps) more result =
      after_step-bind (look_up_keys t [] result) o result steps more
        (λ found. run_steps-append steps more found)
