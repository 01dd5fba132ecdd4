-- ===== src/Modify/Group.antt =====
-- internal/modify/group.go: modifiers one after the other.
--
-- A modifier is what its state answers; a header is its raw fields, which `RewriteBody` may change.
pub mod Chain
mod Tests
use sirr_mesh.Base.{Option, none, some, List, [], ◌∷◌, ◌++◌, Text, Result, ok, ◌>>=◌}
use sirr_mesh.Exterrors.{Error}

pub record Modifier : Type 0 where
  -- the error of `ModStateForMsg`, if it fails
  pub init : Option Error
  pub rewrite_sender : Text → Result Error Text
  pub rewrite_rcpt : Text → Result Error (List Text)
  pub rewrite_body : List Text → Result Error (List Text)
  -- the error of `Close`
  pub close : Option Error

-- The states that are open, and those that were closed again since one failed.
pub record Opened : Type 0 where
  pub states : List Modifier
  pub closed : List Modifier
  pub failure : Option Error

open_next : List Modifier → Modifier → Option Error → (List Modifier → Opened) → Opened
open_next states m none next = next (states ++ (m ∷ []))
open_next states m (some e) next = record { states = []; closed = states; failure = some e }

open_from : List Modifier → List Modifier → Opened
unfolding open_next
open_from states [] = record { states = states; closed = []; failure = none }
open_from states (m ∷ mods) = open_next states m m.init (λ more. open_from more mods)

-- `Group.ModStateForMsg`
unfoldable pub mod_state_for_msg : List Modifier → Opened
unfolding open_from
mod_state_for_msg mods = open_from [] mods

-- `groupState.RewriteSender`
unfoldable pub group_sender : List Modifier → Text → Result Error Text
group_sender [] from = ok from
group_sender (m ∷ mods) from = do next ← m.rewrite_sender from; group_sender mods next

-- The inner loop of `RewriteRcpt`, with `intermediateResult`; also that over the source's modifiers.
unfoldable pub rewrite_each :
    (Text → Result Error (List Text)) → List Text → Result Error (List Text)
rewrite_each rewrite [] = ok []
rewrite_each rewrite (r ∷ rcpts) = do
  part ← rewrite r
  rest ← rewrite_each rewrite rcpts
  ok (part ++ rest)

unfoldable pub group_rcpts : List Modifier → List Text → Result Error (List Text)
unfolding rewrite_each
group_rcpts [] result = ok result
group_rcpts (m ∷ mods) result = do next ← rewrite_each m.rewrite_rcpt result; group_rcpts mods next

-- `groupState.RewriteRcpt`
unfoldable pub group_rcpt : List Modifier → Text → Result Error (List Text)
unfolding group_rcpts
group_rcpt mods rcpt = group_rcpts mods (rcpt ∷ [])

-- `groupState.RewriteBody`
unfoldable pub group_body : List Modifier → List Text → Result Error (List Text)
group_body [] header = ok header
group_body (m ∷ mods) header = do next ← m.rewrite_body header; group_body mods next

last_error : Option Error → Option Error → Option Error
last_error none before = before
last_error (some e) before = some e

-- `groupState.Close`, with `lastErr`.
unfoldable pub close_all : Option Error → List Modifier → Option Error
unfolding last_error
close_all last [] = last
close_all last (m ∷ mods) = close_all (last_error m.close last) mods

-- A group is a modifier, as an empty one is.
abbrev pub as_modifier : List Modifier → Modifier
as_modifier mods = record {
  init = (mod_state_for_msg mods).failure;
  rewrite_sender = group_sender mods;
  rewrite_rcpt = group_rcpt mods;
  rewrite_body = group_body mods;
  close = close_all none mods;
}
