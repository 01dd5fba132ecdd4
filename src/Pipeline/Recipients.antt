-- ===== src/Pipeline/Recipients.antt =====
-- internal/msgpipeline/msgpipeline.go: `AddRcpt`, with `getRcptModifiers` and `getDelivery`.
pub mod Offered
pub mod Planned
use sirr_mesh.Base.{
  ℕ, Bool, true, false, Option, none, some, List, [], ◌∷◌, ◌++◌, ◌==◌, if◌then◌else◌, Text, text,
  text_eq, insert, Result, ok, err,
}
use sirr_mesh.Exterrors.{Error, str, with_fields}
use sirr_mesh.Modify.Group.{mod_state_for_msg, rewrite_each, group_rcpt}
use sirr_mesh.Checks.States.{check_rcpt_of}
use sirr_mesh.Pipeline.Config.{MsgPipeline, World, Delivering}
use sirr_mesh.Pipeline.Route.{rcpt_block_for_addr}
use sirr_mesh.Pipeline.Steps.{M, after, ◌>>=◌, ◌>>◌, pure, lift, fail_with, run_check}

-- `wrapErr`: the field `effective_rcpt` is added to the error of a step.
abbrev pub wrap : Text → Error → Error
wrap to e = with_fields e ((text "effective_rcpt", str to) ∷ [])

abbrev pub wrapped :
    {A : Type 0} → (Error → Error) → Delivering × Result Error A → Delivering × Result Error A
wrapped f (d, ok a) = (d, ok a)
wrapped f (d, err e) = (d, err (f e))

abbrev pub wrapping : {A : Type 0} → (Error → Error) → M A → M A
wrapping f m d = wrapped f (m d)

abbrev pub known : ℕ → List ℕ → Bool
known n [] = false
known n (m ∷ ms) = if m == n then true else known n ms

open_block : ℕ → Bool → Option Error → M (Unit {0})
open_block b true e d = (d, ok tt)
open_block b false (some e) d = (d, err e)
open_block b false none d = (record d { opened = d.opened ++ (b ∷ []) }, ok tt)

-- `getRcptModifiers`; a new sender is ignored.
pub get_rcpt_modifiers : World → ℕ → M (Unit {0})
unfolding open_block mod_state_for_msg
get_rcpt_modifiers w b d =
    open_block b (known b d.opened) (mod_state_for_msg (w.block b).rcpt_modifiers).failure d

abbrev pub started : ℕ → List (ℕ × List Text) → Bool
started t [] = false
started t ((u, rcpts) ∷ ds) = if u == t then true else started t ds

start_target : ℕ → Bool → Option Error → M (Unit {0})
start_target t true e d = (d, ok tt)
start_target t false (some e) d = (d, err e)
start_target t false none d = (record d { deliveries = d.deliveries ++ ((t, []) ∷ []) }, ok tt)

-- `getDelivery`
get_delivery : World → ℕ → M (Unit {0})
unfolding start_target
get_delivery w t d = start_target t (started t d.deliveries) (w.target_start t d.source_addr) d

-- `delivery.recipients = append(delivery.recipients, originalTo)`
add_original : ℕ → Text → List (ℕ × List Text) → List (ℕ × List Text)
add_original t orig [] = []
add_original t orig ((u, rcpts) ∷ ds) =
    if u == t then (u, rcpts ++ (orig ∷ [])) ∷ ds else (u, rcpts) ∷ add_original t orig ds

accepted : ℕ → Text → Text → Option Error → M (Unit {0})
unfolding add_original
accepted t orig to (some e) d = (d, err e)
accepted t orig to none d = (
  record d { deliveries = add_original t orig d.deliveries; offered = d.offered ++ ((t, to) ∷ []) },
  ok tt,
)

-- `delivery.AddRcpt`
offer : World → ℕ → Text → Text → M (Unit {0})
unfolding accepted
offer w t orig to d = accepted t orig to (w.target_rcpt t d.offered to) d

-- An error of a nested pipeline is not wrapped.
target_wrap : World → ℕ → Text → Error → Error
target_wrap w t to e = if w.is_pipeline t then e else wrap to e

-- The loop over the targets of the block.
offer_targets : World → Text → Text → List ℕ → M (Unit {0})
unfolding get_delivery offer target_wrap
offer_targets w orig to [] = pure tt
offer_targets w orig to (t ∷ ts) = do
  wrapping (target_wrap w t to) (get_delivery w t)
  wrapping (target_wrap w t to) (offer w t orig to)
  offer_targets w orig to ts

-- `if originalTo != to`
record_original : Text → Text → M (Unit {0})
unfolding insert
record_original orig to d = (
  if text_eq orig to then d else record d { original_rcpts = insert to orig d.original_rcpts },
  ok tt,
)

-- The loop over what the block's modifiers made of one address.
pub offer_rewritten : World → Text → List ℕ → List Text → M (Unit {0})
unfolding record_original offer_targets
offer_rewritten w orig ts [] = pure tt
offer_rewritten w orig ts (to ∷ tos) = do
  record_original orig to
  offer_targets w orig to ts
  offer_rewritten w orig ts tos

-- The block that an address is routed to, unless it rejects.
pub routed : World → Text → M ℕ
unfolding rcpt_block_for_addr
routed w to d =
    after (d, rcpt_block_for_addr w.packages d.source_block to)
      (λ b. do lift (fail_with (w.block b).rcpt_reject); pure b)

pub block_check : World → Text → ℕ → M (Unit {0})
unfolding check_rcpt_of
block_check w to b = run_check (λ r. check_rcpt_of w.checks r (w.block b).rcpt_checks to)

pub block_rewrite : World → Text → ℕ → M (List Text)
unfolding group_rcpt get_rcpt_modifiers
block_rewrite w to b = do get_rcpt_modifiers w b; lift (group_rcpt (w.block b).rcpt_modifiers to)

-- The loop over the addresses that the modifiers of the pipeline and of the source made.
pub deliver_each : World → Text → List Text → M (Unit {0})
unfolding routed block_check block_rewrite offer_rewritten
deliver_each w orig [] = pure tt
deliver_each w orig (to ∷ tos) = do
  b ← wrapping (wrap to) (routed w to)
  wrapping (wrap to) (block_check w to b)
  rewritten ← wrapping (wrap to) (block_rewrite w to b)
  offer_rewritten w orig (w.block b).targets rewritten
  deliver_each w orig tos

pub source_check : World → Text → M (Unit {0})
unfolding check_rcpt_of
source_check w to d = run_check (λ r. check_rcpt_of w.checks r d.source_block.source_checks to) d

pub source_rewrite : List Text → M (List Text)
unfolding rewrite_each group_rcpt
source_rewrite tos d = (d, rewrite_each (group_rcpt d.source_block.source_modifiers) tos)

-- `AddRcpt`
unfoldable pub add_rcpt : World → MsgPipeline → Text → M (Unit {0})
unfolding source_check source_rewrite deliver_each group_rcpt check_rcpt_of
add_rcpt w p to = do
  run_check (λ r. check_rcpt_of w.checks r p.global_checks to)
  source_check w to
  tos ← lift (group_rcpt p.global_modifiers to)
  effective ← source_rewrite tos
  deliver_each w to effective
