-- ===== src/Config/Number.antt =====
-- The functions of Go's strconv that framework/config/map.go calls, in base 10. An `int` has 64 bits.
use sirr_mesh.Base.{
  ℕ, zero, suc, ◌+◌, ◌-◌, ◌*◌, ◌^◌, Bool, ◌&&◌, ltb, leb, ◌==◌, Option, none, some, [], ◌∷◌,
  if◌then◌else◌, Text,
}

-- A number, or `- (1 + n)`.
pub data ℤ : Type 0 where
  pos negsuc : ℕ → ℤ

abbrev negated : ℕ → ℤ
negated zero = pos 0
negated (suc n) = negsuc n

abbrev pub dec_digit : ℕ → Bool
dec_digit c = leb b'0' c && leb c b'9'

-- The value of a string of digits.
unfoldable pub decimal : ℕ → Text → Option ℕ
decimal value [] = some value
decimal value (c ∷ cs) =
    let rest = decimal (value * 10 + (c - b'0')) cs in if dec_digit c then rest else none

below : ℕ → Option ℕ → Option ℕ
below limit none = none
below limit (some n) = if ltb n limit then some n else none

-- `strconv.ParseUint(s, 10, bits)`
unfoldable pub parse_uint : ℕ → Text → Option ℕ
unfolding decimal below
parse_uint bits [] = none
parse_uint bits (c ∷ cs) = below (2 ^ bits) (decimal 0 (c ∷ cs))

as_positive : ℕ → Option ℕ → Option ℤ
as_positive limit none = none
as_positive limit (some n) = if ltb n limit then some (pos n) else none

as_negative : ℕ → Option ℕ → Option ℤ
as_negative limit none = none
as_negative limit (some n) = if leb n limit then some (negated n) else none

-- `strconv.ParseInt(s, 10, bits)`
unfoldable pub parse_int : ℕ → Text → Option ℤ
unfolding as_positive as_negative parse_uint
parse_int bits [] = none
parse_int bits (c ∷ cs) =
    if c == b'+'
    then as_positive (2 ^ (bits - 1)) (parse_uint bits cs)
    else if c == b'-'
    then as_negative (2 ^ (bits - 1)) (parse_uint bits cs)
    else as_positive (2 ^ (bits - 1)) (parse_uint bits (c ∷ cs))

-- `strconv.Atoi`
abbrev pub atoi : Text → Option ℤ
atoi s = parse_int 64 s
