-- ===== src/Limits/Limiters/Tests.antt =====
-- Runs of several limiters together.
use sirr_mesh.Base.{◌≡◌, refl, true, false, List, [], ◌∷◌}
use sirr_mesh.Limits.Limiters.{
  Leaf, semaphore, rate, context_done, bucket_closed, refused, take_all, take_leaf, release_all,
  release_leaf, refill,
}
use sirr_mesh.Limits.Limiters.Undo.{Restores, take_all-Restores}

-- The semaphore at the end is full.
abbrev limits : List Leaf
limits = semaphore 2 0 ∷ rate 5 3 false ∷ semaphore 1 1 ∷ []

refused_run :
    take_all limits ≡ refused context_done (semaphore 2 0 ∷ rate 5 2 false ∷ semaphore 1 1 ∷ [])
unfolding take_all take_leaf release_all release_leaf
refused_run = refl

closed_run : take_all (rate 1 0 true ∷ []) ≡ refused bucket_closed (rate 1 0 true ∷ [])
unfolding take_all take_leaf release_all
closed_run = refl

refill_run : refill (rate 5 2 false) ≡ rate 5 5 false
unfolding refill
refill_run = refl

take_all-Restores_example : Restores limits (take_all limits)
take_all-Restores_example = take_all-Restores limits
