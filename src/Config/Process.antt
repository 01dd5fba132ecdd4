-- ===== src/Config/Process.antt =====
-- framework/config/map.go: `Custom`, `Callback` and `ProcessWith`.
--
-- `V` is the type of the values, and `none` in place of one is a nil interface; `is_zero` tells a zero
-- value of its type. Variables that the entries point to are known by the name of their entry, `stores`.
-- The calls of callbacks are recorded in order. The entries are visited in the order of the map; an
-- error ends `Process`, and what has been assigned by then is left out.
pub mod Matched
pub mod Missing
pub mod Chosen
mod Tests
use sirr_mesh.Base.{
  Bool, false, not, ◌++◌, Option, none, some, List, [], ◌∷◌, if◌then◌else◌, Text, Map, lookup,
  insert, has_key, member, Result, ok, err, ◌>>=◌,
}
use sirr_mesh.Config.Node.{
  Node, name_of, to_list, children_of, Reason, unexpected_directive, duplicate_directive,
  missing_required,
}

pub record Matcher (V : Type 0) : Type 0 where
  pub name : Text
  pub required : Bool
  pub inherit_global : Bool
  pub default_val : Option (Result Reason (Option V))
  pub mapper : Option (Node → Result Reason (Option V))
  pub store : Bool
  pub custom_callback : Option (Node → Option Reason)

-- The entry that `Custom` adds; `none` is the panic on a duplicate.
unfoldable pub add_entry :
    {V : Type 0} → Text → Matcher V → Map (Matcher V) → Option (Map (Matcher V))
unfolding lookup insert
add_entry name m entries = if has_key name entries then none else some (insert name m entries)

unfoldable pub custom :
    {V : Type 0}
    → Text
    → Bool
    → Bool
    → Option (Result Reason (Option V))
    → (Node → Result Reason (Option V))
    → Bool
    → Map (Matcher V)
    → Option (Map (Matcher V))
unfolding add_entry
custom name inherit required default mapper store entries =
    add_entry name
      (record {
        name = name;
        required = required;
        inherit_global = inherit;
        default_val = default;
        mapper = some mapper;
        store = store;
        custom_callback = none;
      })
      entries

unfoldable pub callback :
    {V : Type 0} → Text → (Node → Option Reason) → Map (Matcher V) → Option (Map (Matcher V))
unfolding add_entry
callback name f entries =
    add_entry name
      (record {
        name = name;
        required = false;
        inherit_global = false;
        default_val = none;
        mapper = none;
        store = false;
        custom_callback = some f;
      })
      entries

-- The variables of `ProcessWith`.
pub record Progress (V : Type 0) : Type 0 where
  pub unknown : List Node
  pub matched : List Text
  pub values : Map (Option V)
  pub stores : Map (Option V)
  pub called : List Node

abbrev pub no_progress : {V : Type 0} → Progress V
no_progress = record { unknown = []; matched = []; values = []; stores = []; called = [] }

module _ {V : Type 0} (is_zero : V → Bool) where
  -- `if matcher.store != nil { matcher.assign(val) }`
  abbrev pub assign : Matcher V → Option V → Progress V → Progress V
  assign m val p = if m.store then record p { stores = insert m.name val p.stores } else p

  mapped : Matcher V → Node → Progress V → Result Reason (Option V) → Result Reason (Progress V)
  unfolding insert
  mapped m n p (err e) = err e
  mapped m n p (ok val) = ok (
      assign m val
        (record p { matched = name_of n ∷ p.matched; values = insert m.name val p.values }))

  -- `matcher.mapper(m, subnode)`, which panics if there is none; an entry has a mapper or a callback.
  with_mapper :
      Matcher V
      → Node
      → Progress V
      → Option (Node → Result Reason (Option V))
      → Result Reason (Progress V)
  unfolding mapped
  with_mapper m n p none = ok p
  with_mapper m n p (some f) =
      if member (name_of n) p.matched
      then err (duplicate_directive (name_of n))
      else mapped m n p (f n)

  called_back : Node → Progress V → Option Reason → Result Reason (Progress V)
  called_back n p (some e) = err e
  called_back n p none =
      ok (record p { matched = name_of n ∷ p.matched; called = p.called ++ (n ∷ []) })

  with_matcher :
      Matcher V → Node → Progress V → Option (Node → Option Reason) → Result Reason (Progress V)
  unfolding called_back with_mapper
  with_matcher m n p (some f) = called_back n p (f n)
  with_matcher m n p none = with_mapper m n p m.mapper

  -- One directive of the block.
  directive : Bool → Node → Progress V → Option (Matcher V) → Result Reason (Progress V)
  unfolding with_matcher
  directive allow_unknown n p none =
      if not allow_unknown
      then err (unexpected_directive (name_of n))
      else ok (record p { unknown = p.unknown ++ (n ∷ []) })
  directive allow_unknown n p (some m) = with_matcher m n p m.custom_callback

  pub directives : Bool → Map (Matcher V) → List Node → Progress V → Result Reason (Progress V)
  unfolding directive lookup
  directives allow_unknown entries [] p = ok p
  directives allow_unknown entries (n ∷ ns) p =
      directive allow_unknown n p (lookup (name_of n) entries)
      >>= directives allow_unknown entries ns

  -- `store`: a value that is not nil and not zero.
  abbrev pub worth_storing : Option V → Bool
  worth_storing none = false
  worth_storing (some v) = not (is_zero v)

  settle : Matcher V → Progress V → Option V → Progress V
  unfolding insert
  settle m p val =
      assign m val
        (if worth_storing val then record p { values = insert m.name val p.values } else p)

  settled : Matcher V → Progress V → Result Reason (Option V) → Result Reason (Progress V)
  unfolding settle
  settled m p (err e) = err e
  settled m p (ok val) = ok (settle m p val)

  or_default :
      Matcher V → Progress V → Option (Result Reason (Option V)) → Result Reason (Progress V)
  unfolding settled
  or_default m p none = ok p
  or_default m p (some r) = settled m p r

  without_global : Matcher V → Progress V → Result Reason (Progress V)
  unfolding or_default
  without_global m p =
      if not m.required then or_default m p m.default_val else err (missing_required m.name)

  or_global : Matcher V → Progress V → Option (Option V) → Result Reason (Progress V)
  unfolding without_global settle
  or_global m p none = without_global m p
  or_global m p (some val) = if m.inherit_global then ok (settle m p val) else without_global m p

  -- `if matcher.mapper == nil { continue }`
  missing_mapper :
      Map (Option V)
      → Matcher V
      → Progress V
      → Option (Node → Result Reason (Option V))
      → Result Reason (Progress V)
  unfolding or_global lookup
  missing_mapper globals m p none = ok p
  missing_mapper globals m p (some f) = or_global m p (lookup m.name globals)

  pub missing : Map (Option V) → Matcher V → Progress V → Result Reason (Progress V)
  unfolding missing_mapper
  missing globals m p =
      if member m.name p.matched then ok p else missing_mapper globals m p m.mapper

  pub missings : Map (Option V) → Map (Matcher V) → Progress V → Result Reason (Progress V)
  unfolding missing
  missings globals [] p = ok p
  missings globals ((k, m) ∷ entries) p = missing globals m p >>= missings globals entries

  -- `ProcessWith`, the progress holding the nodes that it returns.
  unfoldable pub process_with :
      Bool → Map (Matcher V) → Map (Option V) → Node → Result Reason (Progress V)
  unfolding directives missings
  process_with allow_unknown entries globals block =
      directives allow_unknown entries (to_list (children_of block)) no_progress
      >>= missings globals entries
