-- ===== src/Queue/Wheel/Tests.antt =====
-- A wheel with three slots, and witnesses.
use sirr_mesh.Base.{ℕ, ◌≡◌, refl, false, some, [], ◌∷◌, String, text}
use sirr_mesh.Queue.Wheel.{Slot, Wheel, closest, fire}
use sirr_mesh.Queue.Wheel.Closest.{Accounts, fire-Accounts}

abbrev slot : ℕ → String → Slot
slot t id = record { time = t; id = text id }

abbrev wheel : Wheel
wheel = record { stopped = false; slots = slot 30 "x" ∷ slot 20 "y" ∷ slot 20 "z" ∷ [] }

closest_run : closest 10 wheel.slots ≡ some (slot 20 "y", 1)
unfolding closest
closest_run = refl

fire-Accounts_example : Accounts wheel (fire 10 wheel)
fire-Accounts_example = fire-Accounts 10 wheel
