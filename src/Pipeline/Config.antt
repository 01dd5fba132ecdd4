-- ===== src/Pipeline/Config.antt =====
-- internal/msgpipeline/msgpipeline.go: `MsgPipeline`, its blocks, and `msgpipelineDelivery`.
--
-- Checks, recipient blocks and delivery targets are named by numbers, as the source compares them by
-- their pointers; `World` says what stands behind the numbers. A Go map is a list in the order in
-- which its `range` visits it.
use sirr_mesh.Base.{ℕ, Bool, Option, List, Text, Map, Result}
use sirr_mesh.Exterrors.{Error}
use sirr_mesh.Address.Norm.{Packages}
use sirr_mesh.Modify.Group.{Modifier}
use sirr_mesh.Checks.States.{Checks, Runner}

-- `module.Table.Lookup`, of which the code uses whether there is a value.
abbrev pub Lookup : Type 0
Lookup = Text → Result Error Bool

pub record SourceBlock : Type 0 where
  pub source_checks : List ℕ
  pub source_modifiers : List Modifier
  pub source_reject : Option Error
  pub rcpt_in : List (Lookup × ℕ)
  pub per_rcpt : Map ℕ
  pub default_rcpt : ℕ

pub record RcptBlock : Type 0 where
  pub rcpt_checks : List ℕ
  pub rcpt_modifiers : List Modifier
  pub rcpt_reject : Option Error
  pub targets : List ℕ

pub record MsgPipeline : Type 0 where
  pub global_checks : List ℕ
  pub global_modifiers : List Modifier
  pub source_in : List (Lookup × SourceBlock)
  pub per_source : Map SourceBlock
  pub default_source : SourceBlock
  pub do_dmarc : Bool
  pub first_pipeline : Bool
  pub hostname : Text

-- What the targets answer: `Start` with the sender; `AddRcpt` after the recipients offered so far;
-- `Body`; `Commit` and `Abort`.
pub record World : Type 0 where
  pub packages : Packages
  pub checks : Checks
  pub block : ℕ → RcptBlock
  pub target_start : ℕ → Text → Option Error
  pub target_rcpt : ℕ → List (ℕ × Text) → Text → Option Error
  pub target_body : ℕ → List Text → Option Error
  -- for a target with `PartialDelivery`, the statuses that it sets
  pub target_statuses : ℕ → List Text → Option (List (Text × Option Error))
  pub target_commit : ℕ → Option Error
  pub target_abort : ℕ → Option Error
  -- Is the target a pipeline?
  pub is_pipeline : ℕ → Bool

-- `msgpipelineDelivery`, with `msgMeta.OriginalRcpts`, and the recipients that were offered to the
-- targets, in order.
pub record Delivering : Type 0 where
  pub runner : Runner
  pub source_block : SourceBlock
  pub source_addr : Text
  -- the blocks of `rcptModifiersState`
  pub opened : List ℕ
  -- the deliveries, each with its original recipients
  pub deliveries : List (ℕ × List Text)
  pub original_rcpts : Map Text
  pub offered : List (ℕ × Text)
