-- ===== src/Tables/Chain.antt =====
-- internal/table/chain.go: tables one after the other, each looking up what the one before found.
pub mod Steps
mod Tests
use sirr_mesh.Base.{
  Bool, true, false, Option, none, some, List, [], ◌∷◌, ◌++◌, Text, Result, ok, err,
}

-- `module.Table`, or also `module.MultiTable`.
pub data Table (E : Type 0) : Type 0 where
  single : (Text → Result E (Option Text)) → Table E
  multi : (Text → Result E (List Text)) → Table E

module _ {E : Type 0} where
  at_most_one : Result E (Option Text) → Result E (List Text)
  at_most_one (err e) = err e
  at_most_one (ok none) = ok []
  at_most_one (ok (some v)) = ok (v ∷ [])

  -- The values of a key; with none, the key is missing.
  unfoldable pub values_of : Table E → Text → Result E (List Text)
  unfolding at_most_one
  values_of (single lookup_one) key = at_most_one (lookup_one key)
  values_of (multi lookup_many) key = lookup_many key

  on_values :
      Result E (List Text)
      → (List Text → Result E (Option (List Text)))
      → Result E (Option (List Text))
  on_values (err e) next = err e
  on_values (ok []) next = ok none
  on_values (ok (v ∷ vals)) next = next (v ∷ vals)

  -- The inner loop, with `newResult`; none if it is left for a missing key.
  look_up_keys : Table E → List Text → List Text → Result E (Option (List Text))
  unfolding on_values values_of
  look_up_keys t found [] = ok (some found)
  look_up_keys t found (key ∷ keys) =
      on_values (values_of t key) (λ vals. look_up_keys t (found ++ vals) keys)

  -- What follows a step: without its keys, an optional one is passed over.
  after_step :
      Result E (Option (List Text))
      → Bool
      → List Text
      → (List Text → Result E (List Text))
      → Result E (List Text)
  after_step (err e) optional result next = err e
  after_step (ok none) true result next = next result
  after_step (ok none) false result next = ok []
  after_step (ok (some found)) optional result next = next found

  -- The outer loop, with `result`.
  unfoldable pub run_steps : List (Table E × Bool) → List Text → Result E (List Text)
  unfolding after_step look_up_keys values_of
  run_steps [] result = ok result
  run_steps ((t, optional) ∷ steps) result =
      after_step (look_up_keys t [] result) optional result (λ found. run_steps steps found)

  -- `LookupMulti`
  abbrev pub lookup_multi : List (Table E × Bool) → Text → Result E (List Text)
  lookup_multi steps key = run_steps steps (key ∷ [])

  first_of : Result E (List Text) → Result E (Option Text)
  first_of (err e) = err e
  first_of (ok []) = ok none
  first_of (ok (v ∷ vals)) = ok (some v)

  -- `Lookup`
  unfoldable pub lookup_first : List (Table E × Bool) → Text → Result E (Option Text)
  unfolding first_of
  lookup_first steps key = first_of (lookup_multi steps key)
