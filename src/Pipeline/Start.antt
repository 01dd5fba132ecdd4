-- ===== src/Pipeline/Start.antt =====
-- internal/msgpipeline/msgpipeline.go: `start` and `initRunGlobalModifiers`, the command that begins a
-- delivery. States of modifiers hold nothing here, so that their `Close` is left out.
use sirr_mesh.Base.{List, Text, ok}
use sirr_mesh.Modify.Group.{Modifier, mod_state_for_msg, group_sender}
use sirr_mesh.Checks.States.{check_conn_sender}
use sirr_mesh.Pipeline.Config.{SourceBlock, MsgPipeline, World}
use sirr_mesh.Pipeline.Route.{src_block_for_addr}
use sirr_mesh.Pipeline.Steps.{M, ◌>>=◌, ◌>>◌, lift, fail_with, run_check}

-- `ModStateForMsg` and `RewriteSender`
unfoldable pub open_modifiers : List Modifier → Text → M Text
open_modifiers mods from = do
  lift (fail_with (mod_state_for_msg mods).failure)
  lift (group_sender mods from)

-- `dd.sourceBlock = sourceBlock`
set_source : SourceBlock → M (Unit {0})
set_source s d = (record d { source_block = s }, ok tt)

-- `dd.sourceAddr = mailFrom`
set_sender : Text → M (Unit {0})
set_sender from d = (record d { source_addr = from }, ok tt)

-- `start`
unfoldable pub start : World → MsgPipeline → Text → M (Unit {0})
unfolding open_modifiers set_source set_sender src_block_for_addr check_conn_sender
start w p from = do
  run_check (λ r. check_conn_sender w.checks r p.global_checks from)
  from1 ← open_modifiers p.global_modifiers from
  s ← lift (src_block_for_addr w.packages p from1)
  lift (fail_with s.source_reject)
  set_source s
  run_check (λ r. check_conn_sender w.checks r s.source_checks from1)
  from2 ← open_modifiers s.source_modifiers from1
  set_sender from2
