-- ===== src/Queue/Wheel/Closest.antt =====
-- The slot that `tick` waits for is the first of the earliest, and dispatching loses no slot.
use mathlib.Core.List.{Perm, perm_middle}
use mathlib.Core.List.Perm
use native.Mathlib.Nat.{add-zero, zero-add, add-suc, suc-add}
use sirr_mesh.Base.{
  ℕ, suc, ◌+◌, ◌≤◌, ◌<◌, ◌≡◌, refl, inl, inr, none, some, List, [], ◌∷◌, ◌++◌, arith, length-append,
  ap, ◌∙◌, append-nil, Option, All, All-append, All-weaken, ltb, Bool-cases, append_assoc, length,
  if◌then◌else◌,
}
use sirr_mesh.Queue.Wheel.{
  Slot, Wheel, until, Best, closer, scan, closest, remove_at, take_off, fire, restarts,
}

-- The chosen slot stands at its place: before it only later slots, behind it none earlier.
pub record IsClosest (now : ℕ) (slots : List Slot) (s : Slot) (i : ℕ) : Type 0 where
  pub before : List Slot
  pub after : List Slot
  pub splits : slots ≡ before ++ (s ∷ after)
  pub index : length before ≡ i
  pub later : All (λ b. until s.time now < until b.time now) before
  pub not_earlier : All (λ a. until s.time now ≤ until a.time now) after

All-not_earlier :
    {now : ℕ} {slots : List Slot} {c : Slot} {j : ℕ}
    → IsClosest now slots c j
    → All (λ a. until c.time now ≤ until a.time now) slots
All-not_earlier {now} {c = c} h = rw h.splits (
    All-append (λ a. until c.time now ≤ until a.time now) h.before (c ∷ h.after)
      (All-weaken (λ b lt. omega arith) h.before h.later) (omega arith, h.not_earlier))

-- What the loop knows of the slots that it has read.
abbrev pub Chosen : ℕ → List Slot → Best → Type 0
Chosen now slots none = slots ≡ []
Chosen now slots (some (s, i)) = IsClosest now slots s i

closer-Chosen :
    (now : ℕ) (slots : List Slot) (r : Slot) (best : Best)
    → Chosen now slots best
    → Chosen now (slots ++ (r ∷ [])) (closer now r (length slots) best)
unfolding closer
closer-Chosen now slots r none h = record {
  before = [];
  after = [];
  splits = rw h;
  index = rw h;
  later = tt;
  not_earlier = tt;
}
closer-Chosen now slots r (some (c, j)) h =
    elim (Bool-cases (ltb (until r.time now) (until c.time now))) [
      | inl lt ↦ rw lt (earlier (ground arith))
      | inr ge ↦ rw ge (later (ground arith))
    ]
  where
    earlier :
        until r.time now < until c.time now → IsClosest now (slots ++ (r ∷ [])) r (length slots)
    earlier lt = record {
      before = slots;
      after = [];
      splits = refl;
      index = refl;
      later = All-weaken (λ b le. omega arith) slots (All-not_earlier h);
      not_earlier = tt;
    }

    later : until c.time now ≤ until r.time now → IsClosest now (slots ++ (r ∷ [])) c j
    later le = record {
      before = h.before;
      after = h.after ++ (r ∷ []);
      splits = rw h.splits (append_assoc h.before (c ∷ h.after) (r ∷ []));
      index = h.index;
      later = h.later;
      not_earlier =
          All-append (λ a. until c.time now ≤ until a.time now) h.after (r ∷ []) h.not_earlier
            (le, tt);
    }

scan-Chosen :
    (now : ℕ) (rest seen : List Slot) (n : ℕ) (best : Best)
    → length seen ≡ n
    → Chosen now seen best
    → Chosen now (seen ++ rest) (scan now n best rest)
unfolding scan
scan-Chosen now [] seen n best e h = rw append-nil h
scan-Chosen now (r ∷ rest) seen n best e h =
    let step : Chosen now (seen ++ (r ∷ [])) (closer now r n best) =
      rw (← e) (closer-Chosen now seen r best h) in
    rw append_assoc at (
      scan-Chosen now rest (seen ++ (r ∷ [])) (suc n) (closer now r n best)
        (length-append seen (r ∷ []) ∙ omega arith) step)

-- The slot that `tick` waits for stands at the index it records, no slot is earlier at `now`, and
-- those in front of it are later: of several earliest slots it is the one added first. There is no
-- such slot only if the wheel holds none.
pub closest-Chosen : (now : ℕ) (slots : List Slot) → Chosen now slots (closest now slots)
unfolding closest
closest-Chosen now slots = scan-Chosen now slots [] 0 none refl refl

remove_at-append :
    (before : List Slot) (s : Slot) (after : List Slot)
    → remove_at (length before) (before ++ (s ∷ after)) ≡ before ++ after
unfolding remove_at
remove_at-append [] s after = refl
remove_at-append (b ∷ before) s after = ap (◌∷◌ b) (remove_at-append before s after)

-- The slots of the wheel before a timer are the slot dispatched and those that are left.
abbrev pub Accounts : Wheel → Wheel × Option Slot → Type 0
Accounts tw (tw', none) = (tw' ≡ tw) × (tw.slots ≡ [])
Accounts tw (tw', some s) = Perm (s ∷ tw'.slots) tw.slots × (tw'.stopped ≡ tw.stopped)

accounts_at :
    (tw : Wheel) (s : Slot) (i : ℕ) {now : ℕ}
    → IsClosest now tw.slots s i
    → Perm (s ∷ remove_at i tw.slots) tw.slots
accounts_at tw s i h =
    rw (h.splits, ← h.index, remove_at-append h.before s h.after)
      (Perm.symm (perm_middle h.before h.after))

take_off-Accounts :
    (tw : Wheel) (now : ℕ) (best : Best) → Chosen now tw.slots best → Accounts tw (take_off tw best)
unfolding take_off
take_off-Accounts tw now none h = (refl, h)
take_off-Accounts tw now (some (s, i)) h = (accounts_at tw s i h, refl)

-- Each timer dispatches one slot and loses none: with the slots left it makes up the wheel.
pub fire-Accounts : (now : ℕ) (tw : Wheel) → Accounts tw (fire now tw)
fire-Accounts now tw =
    unfold fire in take_off-Accounts tw now (closest now tw.slots) (closest-Chosen now tw.slots)

scan-append :
    (now n : ℕ) (best : Best) (xs : List Slot) (new : Slot)
    → scan now n best (xs ++ (new ∷ [])) ≡ closer now new (n + length xs) (scan now n best xs)
unfolding scan
scan-append now n best [] new = rw add-zero
scan-append now n best (x ∷ xs) new =
    rw (scan-append now (suc n) (closer now x n best) xs new, suc-add, add-suc)

-- With slot `c` waited for, a new slot becomes the next one exactly if its arrival restarts the
-- wait; if it does not, the choice stays as it is.
closest-append :
    (now : ℕ) (slots : List Slot) (c new : Slot) (i : ℕ)
    → closest now slots ≡ some (c, i)
    → closest now (slots ++ (new ∷ []))
      ≡ (if restarts now c new.time then some (new, length slots) else some (c, i))
unfolding closest restarts
closest-append now slots c new i h = scan-append now 0 none slots new ∙ rw (h, zero-add) refl
