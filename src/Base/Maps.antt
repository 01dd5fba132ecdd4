-- ===== src/Base/Maps.antt =====
-- Go's `map[string]V`, as an association list with at most one entry for a key that `insert`
-- leaves. The order of the entries is the order in which a `range` over the map visits them.
use mathlib.Core.Path.{◌≡◌, refl}
use mathlib.Core.Option.{Option, none, some}
use mathlib.Core.List.{List, [], ◌∷◌, ◌++◌}
use mathlib.Core.Bool.{Bool, true, false, ◌||◌}
use native.Mathlib.Omega.{arith}
use sirr_mesh.Base.Tests.{if◌then◌else◌}
use sirr_mesh.Base.Runes.{Text, text_eq, text_eq_iff}

abbrev pub Map {ℓ} : Type ℓ → Type ℓ
Map V = List (Text × V)

module _ {ℓ} {V : Type ℓ} where
  -- `v, ok := m[k]`
  unfoldable pub lookup : Text → Map V → Option V
  lookup k [] = none
  lookup k ((j, v) ∷ m) = if text_eq j k then some v else lookup k m

  -- `m[k] = v`
  unfoldable pub insert : Text → V → Map V → Map V
  insert k v [] = (k, v) ∷ []
  insert k v ((j, w) ∷ m) = if text_eq j k then (k, v) ∷ m else (j, w) ∷ insert k v m

  -- `delete(m, k)`
  unfoldable pub delete : Text → Map V → Map V
  delete k [] = []
  delete k ((j, v) ∷ m) = let rest = delete k m in if text_eq j k then rest else (j, v) ∷ rest

  pub lookup-insert :
      (k j : Text) (v : V) (m : Map V)
      → lookup j (insert k v m) ≡ (if text_eq k j then some v else lookup j m)
  unfolding lookup insert
  lookup-insert k j v [] = refl
  lookup-insert k j v ((i, w) ∷ m) =
      ground (arith, text_eq_iff k j, text_eq_iff i k, text_eq_iff i j, lookup-insert k j v m)

  pub lookup-delete :
      (k j : Text) (m : Map V) → lookup j (delete k m) ≡ (if text_eq k j then none else lookup j m)
  unfolding lookup delete
  lookup-delete k j [] = ground arith
  lookup-delete k j ((i, w) ∷ m) =
      ground (arith, text_eq_iff k j, text_eq_iff i k, text_eq_iff i j, lookup-delete k j m)

-- `_, ok := m[k]`
abbrev pub is_some {ℓ} : {V : Type ℓ} → Option V → Bool
is_some none = false
is_some (some v) = true

abbrev pub has_key {ℓ} : {V : Type ℓ} → Text → Map V → Bool
has_key k m = is_some (lookup k m)

-- Is the string one of the list?
abbrev pub member : Text → List Text → Bool
member r [] = false
member r (x ∷ xs) = text_eq x r || member r xs

pub member-append :
    (r : Text) (xs ys : List Text) → member r (xs ++ ys) ≡ (member r xs || member r ys)
member-append r [] ys = refl
member-append r (x ∷ xs) ys = ground (arith, member-append r xs ys)

pub has_key-insert {ℓ} :
    {V : Type ℓ} (k j : Text) (v : V) (m : Map V)
    → has_key j (insert k v m) ≡ (text_eq k j || has_key j m)
has_key-insert k j v m = rw (lookup-insert k j v m, has_key) (ground arith)
