-- ===== src/Config/Mappers.antt =====
-- framework/config/map.go: the functions that register an entry, by what their mappers do with a directive.
--
-- `A` is the type of the values of `EnumMapped`. `time.ParseDuration` is a parameter, in nanoseconds, and
-- `is_digit` is `unicode.IsDigit`; `Float` is left out. `ToLower` is that of ASCII: no other rune goes to
-- a letter of the words of `ParseBool`.
mod Tests
use sirr_mesh.Base.{
  ℕ, ◌+◌, Bool, true, false, ◌&&◌, leb, Option, none, some, List, [], ◌∷◌, ◌++◌, if◌then◌else◌,
  Text, text, text_eq, Map, lookup, member, Result, ok, err,
}
use sirr_mesh.Config.Node.{
  Node, has_block, args_of, Reason, no_block_here, wrong_argument_count, no_argument,
  invalid_argument, invalid_number, negative_duration,
}
use sirr_mesh.Config.Number.{ℤ, pos, negsuc, atoi, parse_int, parse_uint}
use sirr_mesh.Config.Size.{parse_data_size}
use sirr_mesh.Config.Process.{Matcher, custom}

pub data Value (A : Type 0) : Type 0 where
  str : Text → Value A
  strs : List Text → Value A
  mapped_value : A → Value A
  mapped_values : List A → Value A
  bool : Bool → Value A
  int : ℤ → Value A
  uint : ℕ → Value A
  duration : ℕ → Value A
  data_size : ℕ → Value A

abbrev pub Read : Type 0 → Type 0
Read A = Result Reason (Option (Value A))

abbrev value : {A : Type 0} → Value A → Read A
value v = ok (some v)

-- `if len(node.Children) != 0`, first of all or after the arguments.
abbrev block_refused : {A : Type 0} → Node → Read A → Read A
block_refused n next = if has_block n then err no_block_here else next

abbrev one_or : {A : Type 0} → Reason → List Text → (Text → Read A) → Read A
one_or e (a ∷ []) next = next a
one_or e _ next = err e

abbrev some_or : {A : Type 0} → List Text → Read A → Read A
some_or [] next = err no_argument
some_or (a ∷ as') next = next

or_invalid : {A B : Type 0} → Reason → (B → Value A) → Option B → Read A
or_invalid e f none = err e
or_invalid e f (some b) = value (f b)

abbrev all_allowed : List Text → List Text → Bool
all_allowed allowed [] = true
all_allowed allowed (a ∷ rest) = member a allowed && all_allowed allowed rest

-- `strings.Join`
abbrev join : Text → List Text → Text
join sep [] = []
join sep (a ∷ []) = a
join sep (a ∷ b ∷ rest) = a ++ sep ++ join sep (b ∷ rest)

abbrev lower_ascii : Text → Text
lower_ascii [] = []
lower_ascii (c ∷ cs) = (if leb b'A' c && leb c b'Z' then c + 32 else c) ∷ lower_ascii cs

-- `ParseBool`
unfoldable pub parse_bool : Text → Option Bool
unfolding text_eq
parse_bool s =
    let w = lower_ascii s in
    if member w (text "1" ∷ text "true" ∷ text "on" ∷ text "yes" ∷ [])
    then some true
    else if member w (text "0" ∷ text "false" ∷ text "off" ∷ text "no" ∷ [])
    then some false
    else none

module _ {A : Type 0} where
  -- `EnumList`
  unfoldable pub enum_list_mapper : List Text → Node → Read A
  enum_list_mapper allowed n = block_refused n (
      some_or (args_of n) (
        if all_allowed allowed (args_of n) then value (strs (args_of n)) else err invalid_argument))

  -- `Enum`
  unfoldable pub enum_mapper : List Text → Node → Read A
  enum_mapper allowed n = block_refused n (
      one_or wrong_argument_count (args_of n)
        (λ a. if member a allowed then value (str a) else err invalid_argument))

  -- `EnumMapped`
  unfoldable pub enum_mapped_mapper : Map A → Node → Read A
  unfolding or_invalid lookup
  enum_mapped_mapper mapped n = block_refused n (
      one_or wrong_argument_count (args_of n)
        (λ a. or_invalid invalid_argument mapped_value (lookup a mapped)))

  with_value : Option A → Option (List A) → Option (List A)
  with_value (some v) (some vs) = some (v ∷ vs)
  with_value _ _ = none

  map_all : Map A → List Text → Option (List A)
  unfolding with_value lookup
  map_all mapped [] = some []
  map_all mapped (a ∷ rest) = with_value (lookup a mapped) (map_all mapped rest)

  -- `EnumListMapped`
  unfoldable pub enum_list_mapped_mapper : Map A → Node → Read A
  unfolding or_invalid map_all
  enum_list_mapped_mapper mapped n =
      block_refused n (
        some_or (args_of n)
          (or_invalid invalid_argument mapped_values (map_all mapped (args_of n))))

  parsed_duration : Option ℤ → Read A
  parsed_duration none = err invalid_argument
  parsed_duration (some (negsuc d)) = err negative_duration
  parsed_duration (some (pos d)) = value (duration d)

  -- `Duration`
  unfoldable pub duration_mapper : (Text → Option ℤ) → Node → Read A
  unfolding parsed_duration
  duration_mapper parse_duration n =
      block_refused n (some_or (args_of n) (parsed_duration (parse_duration (join [] (args_of n)))))

  sized : Result Reason ℕ → Read A
  sized (err e) = err e
  sized (ok n) = value (data_size n)

  -- `DataSize`
  unfoldable pub data_size_mapper : (ℕ → Bool) → Node → Read A
  unfolding sized parse_data_size
  data_size_mapper is_digit n =
      block_refused n
        (some_or (args_of n) (sized (parse_data_size is_digit (join (text " ") (args_of n)))))

  bool_args : List Text → Read A
  unfolding parse_bool or_invalid
  bool_args [] = value (bool true)
  bool_args (a ∷ []) = or_invalid invalid_argument bool (parse_bool a)
  bool_args _ = err wrong_argument_count

  -- `Bool`
  unfoldable pub bool_mapper : Node → Read A
  unfolding bool_args
  bool_mapper n = block_refused n (bool_args (args_of n))

  -- `StringList`
  unfoldable pub string_list_mapper : Node → Read A
  string_list_mapper n = some_or (args_of n) (block_refused n (value (strs (args_of n))))

  -- `String`, and the mappers of numbers: the arguments come before the block.
  unfoldable pub one_argument : (Text → Read A) → Node → Read A
  one_argument f n = one_or wrong_argument_count (args_of n) (λ a. block_refused n (f a))

  unfoldable pub string_mapper : Node → Read A
  unfolding one_argument
  string_mapper n = one_argument (λ a. value (str a)) n

  -- `Int`
  unfoldable pub int_mapper : Node → Read A
  unfolding one_argument or_invalid parse_int
  int_mapper n = one_argument (λ a. or_invalid invalid_number int (atoi a)) n

  unfoldable pub sized_int_mapper : ℕ → Node → Read A
  unfolding one_argument or_invalid parse_int
  sized_int_mapper bits n = one_argument (λ a. or_invalid invalid_number int (parse_int bits a)) n

  -- `Int32`
  abbrev pub int32_mapper : Node → Read A
  int32_mapper n = sized_int_mapper 32 n

  -- `Int64`
  abbrev pub int64_mapper : Node → Read A
  int64_mapper n = sized_int_mapper 64 n

  unfoldable pub sized_uint_mapper : ℕ → Node → Read A
  unfolding one_argument or_invalid parse_uint
  sized_uint_mapper bits n =
      one_argument (λ a. or_invalid invalid_number uint (parse_uint bits a)) n

  -- `UInt`, of 32 bits whatever the platform
  abbrev pub uint_mapper : Node → Read A
  uint_mapper n = sized_uint_mapper 32 n

  -- `UInt32`
  abbrev pub uint32_mapper : Node → Read A
  uint32_mapper n = sized_uint_mapper 32 n

  -- `UInt64`
  abbrev pub uint64_mapper : Node → Read A
  uint64_mapper n = sized_uint_mapper 64 n

  -- A registration: `Custom` with a default that does not fail.
  unfoldable pub register :
      Text
      → Bool
      → Bool
      → Value A
      → (Node → Read A)
      → Map (Matcher (Value A))
      → Option (Map (Matcher (Value A)))
  unfolding custom
  register name inherit required default mapper =
      custom name inherit required (some (value default)) mapper true
