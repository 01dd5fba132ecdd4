-- ===== src/Config/Node.antt =====
-- framework/cfgparser/parse.go: `Node`, less the place in the file; and the errors of `NodeErr` of
-- framework/config/map.go, by what they say.
use sirr_mesh.Base.{Bool, true, false, List, [], ◌∷◌, Text}

mutual
  pub data Node : Type 0 where
    node : Text → List Text → Nodes → Node

  pub data Nodes : Type 0 where
    no_nodes : Nodes
    and_node : Node → Nodes → Nodes

abbrev pub name_of : Node → Text
name_of (node name args children) = name

abbrev pub args_of : Node → List Text
args_of (node name args children) = args

abbrev pub children_of : Node → Nodes
children_of (node name args children) = children

-- The children, in order.
abbrev pub to_list : Nodes → List Node
to_list no_nodes = []
to_list (and_node n ns) = n ∷ to_list ns

-- `len(node.Children) != 0`
abbrev pub has_block : Node → Bool
has_block (node name args no_nodes) = false
has_block (node name args (and_node n ns)) = true

pub data Reason : Type 0 where
  unexpected_directive duplicate_directive missing_required : Text → Reason
  no_block_here wrong_argument_count no_argument invalid_argument negative_duration : Reason
  invalid_number unexpected_digit unknown_suffix missing_number : Reason
  -- an error of the caller
  other_reason : Text → Reason
