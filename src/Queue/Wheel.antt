-- ===== src/Queue/Wheel.antt =====
-- internal/target/queue/timewheel.go: the slots of a `TimeWheel`, and the choice of the next one.
--
-- A `time.Time` is its nanoseconds from year 1. `Time.Sub` saturates at an int64: a duration is
-- given by its offset from the least int64, so that durations compare as numbers.
pub mod Closest
mod Tests
use Prim.Native.Nat.{min}
use sirr_mesh.Base.{
  ℕ, zero, suc, ◌+◌, ◌-◌, ◌^◌, Bool, Option, none, some, List, [], ◌∷◌, ◌++◌, ltb, if◌then◌else◌,
  Text,
}

pub record Slot : Type 0 where
  pub time : ℕ
  pub id : Text

pub record Wheel : Type 0 where
  pub stopped : Bool
  pub slots : List Slot

-- `t.Sub(now)`
unfoldable pub until : ℕ → ℕ → ℕ
until t now = min (t + 2 ^ 63 - now) (2 ^ 64 - 1)

-- `Add`, up to the notification: a stopped wheel ignores the slot.
unfoldable pub add : Wheel → Slot → Wheel
add tw s = if tw.stopped then tw else record tw { slots = tw.slots ++ (s ∷ []) }

-- What the loop of `tick` carries: `closestSlot`, and how many slots stand before it.
abbrev Best : Type 0
Best = Option (Slot × ℕ)

-- `slot.Time.Sub(now) < closestSlot.Time.Sub(now) || closestSlot.Value == nil`
closer : ℕ → Slot → ℕ → Best → Best
unfolding until
closer now s i none = some (s, i)
closer now s i (some (c, j)) =
    if ltb (until s.time now) (until c.time now) then some (s, i) else some (c, j)

-- The loop; `i` slots have been read.
scan : ℕ → ℕ → Best → List Slot → Best
unfolding closer
scan now i best [] = best
scan now i best (s ∷ rest) = scan now (suc i) (closer now s i best) rest

unfoldable pub closest : ℕ → List Slot → Best
unfolding scan
closest now slots = scan now 0 none slots

-- `tw.slots.Remove(closestEl)`
unfoldable pub remove_at : ℕ → List Slot → List Slot
remove_at i [] = []
remove_at zero (s ∷ rest) = rest
remove_at (suc i) (s ∷ rest) = s ∷ remove_at i rest

-- The slot chosen is taken off and handed to `dispatch`.
take_off : Wheel → Best → Wheel × Option Slot
unfolding remove_at
take_off tw none = (tw, none)
take_off tw (some (s, i)) = (record tw { slots = remove_at i tw.slots }, some s)

-- The timer has fired for the slot chosen at `now`.
unfoldable pub fire : ℕ → Wheel → Wheel × Option Slot
unfolding closest take_off
fire now tw = take_off tw (closest now tw.slots)

-- A new target restarts the wait unless `closestSlot.Time.Sub(now) <= newTarget.Sub(now)`.
unfoldable pub restarts : ℕ → Slot → ℕ → Bool
unfolding until
restarts now c target = ltb (until target now) (until c.time now)
