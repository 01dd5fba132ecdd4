-- ===== src/Tables/Chain/Tests.antt =====
-- A chain of an alias table and an optional one.
use sirr_mesh.Base.{
  ◌≡◌, refl, Bool, true, false, none, some, List, [], ◌∷◌, Text, text, text_eq, if◌then◌else◌, ok,
}
use sirr_mesh.Tables.Chain.{Table, single, multi, values_of, run_steps, lookup_first}

abbrev aliases : Table Text
aliases = multi (λ k. if text_eq k (text "all") then ok (text "me" ∷ text "you" ∷ []) else ok [])

abbrev renames : Table Text
renames = single (λ k. if text_eq k (text "you") then ok (some (text "him")) else ok none)

abbrev steps : List (Table Text × Bool)
steps = (aliases, false) ∷ (renames, true) ∷ []

-- `me` has no new name, so that the optional step is passed over for both.
passed_over : run_steps steps (text "all" ∷ []) ≡ ok (text "me" ∷ text "you" ∷ [])
unfolding run_steps values_of text_eq
passed_over = refl

missing : lookup_first steps (text "some") ≡ ok none
unfolding lookup_first run_steps values_of text_eq
missing = refl
