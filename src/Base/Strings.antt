-- ===== src/Base/Strings.antt =====
-- The functions of Go's `strings` that the program uses, on code points.
use Prim.Native.Nat.{ℕ, ◌+◌}
use mathlib.Core.Path.{◌≡◌, refl}
use mathlib.Core.Logic.{inl, inr}
use mathlib.Core.Bool.{Bool, true, false, ◌&&◌, ◌||◌}
use mathlib.Core.List.{List, [], ◌∷◌, ◌++◌, reverse}
use mathlib.Core.Option.{Option, none, some}
use native.Mathlib.Omega.{arith}
use sirr_mesh.Base.Tests.{◌==◌, leb, Option-cases, if◌then◌else◌}
use sirr_mesh.Base.Runes.{Text, text_eq}

-- Does the rune occur?
abbrev pub has_rune : ℕ → Text → Bool
has_rune c [] = false
has_rune c (x ∷ xs) = x == c || has_rune c xs

-- `strings.HasPrefix(s, p)`, prefix first.
unfoldable pub has_prefix : Text → Text → Bool
has_prefix [] s = true
has_prefix (p ∷ ps) [] = false
has_prefix (p ∷ ps) (c ∷ cs) = p == c && has_prefix ps cs

-- `strings.HasSuffix(s, p)`, suffix first.
unfoldable pub has_suffix : Text → Text → Bool
unfolding has_prefix
has_suffix p s = has_prefix (reverse p) (reverse s)

-- `strings.Contains(s, p)`, part first.
unfoldable pub contains : Text → Text → Bool
unfolding has_prefix
contains p [] = has_prefix p []
contains p (c ∷ cs) = has_prefix p (c ∷ cs) || contains p cs

-- `s[:i]` and `s[i+1:]` for `i = strings.LastIndexByte(s, c)`; `none` for `i = -1`.
unfoldable pub split_last : ℕ → Text → Option (Text × Text)
split_last c [] = none
split_last c (x ∷ xs) = elim (split_last c xs) [
  | some (before, after) ↦ some (x ∷ before, after)
  | none ↦ if x == c then some ([], xs) else none
]

-- Puts a rune in front of the first part.
abbrev grow : ℕ → List Text → List Text
grow x [] = (x ∷ []) ∷ []
grow x (p ∷ ps) = (x ∷ p) ∷ ps

-- `strings.Split(s, c)` for a separator of one rune.
unfoldable pub split_on : ℕ → Text → List Text
split_on c [] = [] ∷ []
split_on c (x ∷ xs) = let rest = split_on c xs in if x == c then [] ∷ rest else grow x rest

-- `strings.EqualFold(s, t)` for `t` in lower-case ASCII. Two runes outside ASCII fold to an
-- ASCII letter: U+017F to `s` and U+212A to `k`.
abbrev fold_ascii : ℕ → ℕ
fold_ascii c =
    if leb b'A' c && leb c b'Z'
    then c + 32
    else if c == 0x17f
    then b's'
    else if c == 0x212a
    then b'k'
    else c

abbrev pub fold_all : Text → Text
fold_all [] = []
fold_all (c ∷ cs) = fold_ascii c ∷ fold_all cs

unfoldable pub equal_fold_ascii : Text → Text → Bool
unfolding text_eq
equal_fold_ascii s t = text_eq (fold_all s) t

module _ (c : ℕ) where
  pub split_last-none : (s : Text) → has_rune c s ≡ false → split_last c s ≡ none
  unfolding split_last
  split_last-none [] h = refl
  split_last-none (x ∷ xs) h = ground (arith, split_last-none xs)

  pub split_last-append :
      (a b : Text) → has_rune c b ≡ false → split_last c (a ++ (c ∷ b)) ≡ some (a, b)
  unfolding split_last
  split_last-append [] b h = ground (arith, split_last-none b h)
  split_last-append (x ∷ xs) b h = rw (split_last-append xs b h)

  pub split_last-none-has_rune : (s : Text) → split_last c s ≡ none → has_rune c s ≡ false
  unfolding split_last
  split_last-none-has_rune [] h = refl
  split_last-none-has_rune (x ∷ xs) h = ground (arith, split_last-none-has_rune xs)

  pub split_last-some :
      (s a b : Text) → split_last c s ≡ some (a, b) → (s ≡ a ++ (c ∷ b)) × (has_rune c b ≡ false)
  unfolding split_last
  split_last-some [] a b h = cc
  split_last-some (x ∷ xs) a b h = elim (Option-cases (split_last c xs)) [
    | inl e ↦ ground (arith, split_last-none-has_rune xs e)
    | inr ((a', b'), e) ↦ ground (arith, split_last-some xs a' b' e)
  ]

pub has_rune-fold_all-at : (s : Text) → has_rune b'@' (fold_all s) ≡ has_rune b'@' s
has_rune-fold_all-at [] = refl
has_rune-fold_all-at (c ∷ cs) = ground (arith, has_rune-fold_all-at cs)
