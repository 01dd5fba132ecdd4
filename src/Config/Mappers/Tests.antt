-- ===== src/Config/Mappers/Tests.antt =====
-- Directives with their arguments.
use sirr_mesh.Base.{◌≡◌, refl, true, some, [], ◌∷◌, Text, text, text_eq, ok, err}
use sirr_mesh.Config.Node.{Reason, Node, node, no_nodes, invalid_number}
use sirr_mesh.Config.Number.{negsuc, parse_int, parse_uint, decimal}
use sirr_mesh.Config.Mappers.{
  Value, Read, bool, int, bool_mapper, sized_int_mapper, sized_uint_mapper, one_argument,
  parse_bool, int32_mapper,
}

abbrev Got : Type 0
Got = Read (Unit {0})

abbrev got : Value (Unit {0}) → Got
got v = ok (some v)

abbrev bad : Reason → Got
bad e = err e

abbrev directive : Text → Node
directive a = node (text "x") (a ∷ []) no_nodes

spelled_on : bool_mapper (directive (text "ON")) ≡ got (bool true)
unfolding bool_mapper parse_bool text_eq
spelled_on = refl

least_int32 : int32_mapper (directive (text "-2147483648")) ≡ got (int (negsuc 2147483647))
unfolding sized_int_mapper one_argument parse_int parse_uint decimal
least_int32 = refl

beyond_int32 : int32_mapper (directive (text "2147483648")) ≡ bad invalid_number
unfolding sized_int_mapper one_argument parse_int parse_uint decimal
beyond_int32 = refl

-- `UInt` has 32 bits, on every platform.
beyond_uint : sized_uint_mapper 32 (directive (text "4294967296")) ≡ bad invalid_number
unfolding sized_uint_mapper one_argument parse_uint decimal
beyond_uint = refl
