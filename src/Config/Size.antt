-- ===== src/Config/Size.antt =====
-- framework/config/map.go: `ParseDataSize`.
--
-- The sum wraps around, as an `int` of 64 bits: it is the number modulo 2 ^ 64 here. `is_digit` is
-- `unicode.IsDigit`.
pub mod Sum
mod Tests
use sirr_mesh.Base.{
  ℕ, ◌+◌, ◌*◌, ◌^◌, Bool, true, false, not, ◌||◌, ◌==◌, Option, none, some, [], ◌∷◌, ◌++◌,
  if◌then◌else◌, Text, text, text_eq, Result, ok, err, ◌>>=◌,
}
use Prim.Native.Nat.{◌%◌}
use sirr_mesh.Config.Node.{
  Reason, missing_number, unexpected_digit, invalid_number, unknown_suffix, negative_duration,
}
use sirr_mesh.Config.Number.{ℤ, pos, negsuc, atoi, parse_int}

-- The variables of the loop.
pub record Sizing : Type 0 where
  pub total : ℕ
  pub current_digit : Text
  pub suffix : Text

abbrev pub wrap_64 : ℕ → ℕ
wrap_64 n = n % 2 ^ 64

-- The factor of a suffix.
unfoldable pub unit_of : Text → Option ℕ
unfolding text_eq
unit_of s =
    if text_eq s (text "G")
    then some (1024 * 1024 * 1024)
    else if text_eq s (text "M")
    then some (1024 * 1024)
    else if text_eq s (text "K")
    then some 1024
    else if text_eq s (text "B") || text_eq s (text "b")
    then some 1
    else none

scaled : ℕ → Sizing → Option ℕ → Result Reason Sizing
scaled n z (some unit) =
    ok (record { total = wrap_64 (z.total + n * unit); current_digit = []; suffix = [] })
scaled n z none =
    if not (n == 0)
    then err unknown_suffix
    else ok (record { total = z.total; current_digit = []; suffix = [] })

add_size : Sizing → Option ℤ → Result Reason Sizing
unfolding scaled unit_of
add_size z none = err invalid_number
add_size z (some (negsuc n)) = err negative_duration
add_size z (some (pos n)) = scaled n z (unit_of z.suffix)

digit_after : Bool → ℕ → Sizing → Result Reason Sizing
digit_after true ch z = err unexpected_digit
digit_after false ch z = ok (record z { current_digit = z.current_digit ++ (ch ∷ []) })

abbrev is_empty : Text → Bool
is_empty [] = true
is_empty (c ∷ cs) = false

module _ (is_digit : ℕ → Bool) where
  size_rune : Sizing → ℕ → Result Reason Sizing
  unfolding digit_after add_size parse_int
  size_rune z ch =
      if is_digit ch
      then digit_after (not (is_empty z.suffix)) ch z
      else if not (ch == b' ')
      then ok (record z { suffix = z.suffix ++ (ch ∷ []) })
      else add_size z (atoi z.current_digit)

  size_runes : Sizing → Text → Result Reason Sizing
  unfolding size_rune
  size_runes z [] = ok z
  size_runes z (ch ∷ s) = size_rune z ch >>= λ z'. size_runes z' s

  total_of : Result Reason Sizing → Result Reason ℕ
  total_of (err e) = err e
  total_of (ok z) = ok z.total

  -- `ParseDataSize`
  unfoldable pub parse_data_size : Text → Result Reason ℕ
  unfolding size_runes total_of
  parse_data_size [] = err missing_number
  parse_data_size (c ∷ s) =
      total_of
        (size_runes (record { total = 0; current_digit = []; suffix = [] }) ((c ∷ s) ++ text " "))
