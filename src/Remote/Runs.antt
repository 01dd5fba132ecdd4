-- ===== src/Remote/Runs.antt =====
-- A whole delivery of internal/target/remote: `Start`, the calls of `AddRcpt`, `BodyNonAtomic`, `Close`. The
-- network may answer each call in another way.
pub mod Whole
mod Tests
use sirr_mesh.Base.{ℕ, Option, none, some, List, [], ◌∷◌, Text}
use sirr_mesh.Exterrors.{Error}
use sirr_mesh.Limits.Group.{Group, take_msg, take_dest, release_msg, release_dest}
use sirr_mesh.Remote.Start.{LimitOps, Target, Rd, World}
use sirr_mesh.Remote.Delivery.{add_rcpt}

abbrev after_call :
    {G : Type 0} → Option (Rd G × Option Error) → (Rd G → Option (Rd G)) → Option (Rd G)
after_call none next = none
after_call (some (rd, e)) next = next rd

-- The calls of `AddRcpt`, whether they fail or not.
unfoldable pub add_rcpts :
    {G : Type 0} → LimitOps G → Target → List (World × Text) → Rd G → Option (Rd G)
unfolding add_rcpt
add_rcpts ops rt [] rd = some rd
add_rcpts ops rt ((w, to) ∷ calls) rd =
    after_call (add_rcpt ops rt w to rd) (add_rcpts ops rt calls)

-- The operations of the group of limits that the target has.
abbrev pub group_limits : ℕ → LimitOps Group
group_limits now = record {
  op_take_msg = take_msg now;
  op_take_dest = take_dest now;
  op_release_msg = release_msg;
  op_release_dest = release_dest;
}
