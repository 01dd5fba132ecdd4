-- ===== src/Queue/Retry/Bounded.antt =====
-- A message leaves the queue after a bounded number of attempts that can write its metadata, whatever
-- the target answers.
use mathlib.Core.Option.{some-injective}
use sirr_mesh.Base.{
  ℕ, ◌+◌, ◌≤◌, ◌<◌, ◌≡◌, sym, inl, inr, Bool, true, false, Option, none, some, List, [], ◌∷◌, arith,
  Bool-cases, Option-cases, All, All-weaken, All-zip, subst, Text, lookup,
}
use sirr_mesh.Exterrors.{Error}
use sirr_mesh.Queue.Deliver.{Errs}
use sirr_mesh.Queue.Retry.{
  Meta, Sorted, Outcome, removed, requeued, sort_meta, on_disk, conclude, try_delivery,
}
use sirr_mesh.Queue.Retry.Sorting.{
  verdict_of, is_retried, to_retry, pick, NotIn, Distinct, before, sort_meta_lem,
}

abbrev pub still_queued : Outcome → Option Meta
still_queued (removed failed) = none
still_queued (requeued failed meta delay) = some meta

-- An attempt: the errors of the target, and whether the metadata can be written then.
abbrev pub Round : Type 0
Round = Errs × Bool

abbrev saves : Bool → ℕ
saves true = 1
saves false = 0

-- The attempts that can write the metadata.
abbrev pub saved_in : List Round → ℕ
saved_in [] = 0
saved_in ((errs, saved) ∷ rounds) = saves saved + saved_in rounds

-- The attempts on one message: its metadata on disk, which each of them reads anew and the last one
-- leaves, `none` when it has left the queue.
unfoldable pub left_after : ℕ → List Round → Option Meta → Option Meta
left_after max_tries rounds none = none
left_after max_tries [] (some meta) = some meta
left_after max_tries ((errs, saved) ∷ rounds) (some meta) =
    left_after max_tries rounds (still_queued (try_delivery max_tries errs saved meta))

-- The recipients of a queued message are different, and each has been tried `k` times.
record Tried (k : ℕ) (meta : Meta) : Type 0 where
  distinct : Distinct meta.to
  tried : All (λ r. k ≤ before meta r) meta.to

NotIn-pick : (p : Text → Bool) (x : Text) (xs : List Text) → NotIn x xs → NotIn x (pick p xs)
NotIn-pick p x [] h = tt
NotIn-pick p x (y ∷ xs) h = elim (Bool-cases (p y)) [
  | inl e ↦ rw e (h.0, NotIn-pick p x xs h.1)
  | inr e ↦ rw e (NotIn-pick p x xs h.1)
]

Distinct-pick : (p : Text → Bool) (xs : List Text) → Distinct xs → Distinct (pick p xs)
Distinct-pick p [] h = tt
Distinct-pick p (x ∷ xs) h = elim (Bool-cases (p x)) [
  | inl e ↦ rw e (NotIn-pick p x xs h.0, Distinct-pick p xs h.1)
  | inr e ↦ rw e (Distinct-pick p xs h.1)
]

verdict_of-lt :
    (max count : ℕ) (o : Option Error)
    → is_retried (verdict_of max count o) ≡ true
    → count + 1 < max
unfolding verdict_of
verdict_of-lt max count none h = cc
verdict_of-lt max count (some err) h = ground arith

module _ (max_tries k : ℕ) (errs : Errs) (meta : Meta) where
  abbrev kept : List Text
  kept = pick (to_retry max_tries errs (before meta)) meta.to

  kept-tried :
      (to : List Text)
      → All (λ r. k ≤ before meta r) to
      → All
          (λ r. (k + 1 ≤ before meta r + 1) × (k + 1 < max_tries))
          (pick (to_retry max_tries errs (before meta)) to)
  kept-tried [] h = tt
  kept-tried (x ∷ to) h = elim (Bool-cases (to_retry max_tries errs (before meta) x)) [
    | inl e ↦
        let lt = verdict_of-lt max_tries (before meta x) (lookup x errs) e in
        rw e ((omega arith, omega arith), kept-tried to h.1)
    | inr e ↦ rw e (kept-tried to h.1)
  ]

  -- The metadata that `tryDelivery` writes for the recipients `new`.
  abbrev written : Sorted → List Text → Meta
  written s new = record { to = new; rcpt_errs = s.rcpt_errs; tries_count = s.tries }

  conclude-Tried :
      (saved : Bool) (s : Sorted) (new : List Text)
      → Tried k meta
      → Distinct new
      → All (λ r. (k + 1 ≤ before (written s new) r) × (k + 1 < max_tries)) new
      → (m : Meta) → still_queued (conclude saved meta s new) ≡ some m
      → Tried (k + saves saved) m × (k + 1 < max_tries)
  unfolding conclude on_disk
  conclude-Tried saved s [] t d h m e = cc
  conclude-Tried false s (r ∷ new) t d h m e =
      subst (λ (x : Meta). Tried (k + 0) x × (k + 1 < max_tries)) (some-injective meta m e)
        (subst (λ j. Tried j meta) {x = k} {y = k + 0} (omega arith) t, h.0.1)
  conclude-Tried true s (r ∷ new) t d h m e =
      subst (λ (x : Meta). Tried (k + 1) x × (k + 1 < max_tries))
        (some-injective (written s (r ∷ new)) m e)
        (record { distinct = d; tried = All-weaken (λ x p. p.0) (r ∷ new) h }, h.0.1)

  -- The counters written are those of the loop.
  retried-written :
      (s : Sorted)
      → s.new_rcpts ≡ kept
      → All (λ r. before (written s s.new_rcpts) r ≡ before meta r + 1) s.new_rcpts
      → Tried k meta
      → All (λ r. (k + 1 ≤ before (written s s.new_rcpts) r) × (k + 1 < max_tries)) s.new_rcpts
  retried-written s new counts t =
      All-zip (λ r c b. (omega arith, b.1)) s.new_rcpts counts
        (subst (All (λ r. (k + 1 ≤ before meta r + 1) × (k + 1 < max_tries))) (sym new)
          (kept-tried meta.to t.tried))

  try_delivery-Tried :
      (saved : Bool)
      → Tried k meta
      → (m : Meta) → still_queued (try_delivery max_tries errs saved meta) ≡ some m
      → Tried (k + saves saved) m × (k + 1 < max_tries)
  unfolding try_delivery
  try_delivery-Tried saved t m e =
      let s : Sorted = sort_meta max_tries errs meta in
      let (new, old, counts) = sort_meta_lem max_tries errs meta t.distinct in
      conclude-Tried saved s s.new_rcpts t (rw new (Distinct-pick _ meta.to t.distinct))
        (retried-written s new counts t) m e

-- With `k` tries behind each recipient, a message that is still queued after the rounds has at least
-- those and one for each round that could write, which are fewer than `max_tries`.
left_after-tries :
    (max_tries k : ℕ) (errs : Errs) (saved : Bool) (rounds : List Round) (meta m : Meta)
    → Tried k meta
    → left_after max_tries ((errs, saved) ∷ rounds) (some meta) ≡ some m
    → (k + 1 < max_tries) × (k + saved_in ((errs, saved) ∷ rounds) < max_tries)
unfolding left_after
left_after-tries max_tries k errs saved [] meta m t e =
    elim (Option-cases (still_queued (try_delivery max_tries errs saved meta))) [
      | inl gone ↦ cc (rw (gone, left_after) at e)
      | inr (m', q) ↦
          let lt = (try_delivery-Tried max_tries k errs meta saved t m' q).1 in (lt, once saved lt)
    ]
  where
    once : (b : Bool) → k + 1 < max_tries → k + (saves b + 0) < max_tries
    once true lt = omega (arith, lt)
    once false lt = omega (arith, lt)
left_after-tries max_tries k errs saved ((errs', saved') ∷ rounds) meta m t e =
    elim (Option-cases (still_queued (try_delivery max_tries errs saved meta))) [
      | inl gone ↦ cc (rw (gone, left_after) at e)
      | inr (m', q) ↦
          let (tried, lt) = try_delivery-Tried max_tries k errs meta saved t m' q in
          (
            lt,
            omega (
              arith,
              (left_after-tries max_tries (k + saves saved) errs' saved' rounds m' m tried
                  (rw (q, left_after) at e)).1,
            ),
          )
    ]

-- Whatever errors the target gives, a message to different recipients has left the queue after one or
-- more attempts, if `max_tries` of them or more could write the metadata. The others do not count: the
-- next attempt reads from disk the counters as they were before.
pub left_after_lem :
    (max_tries : ℕ) (errs : Errs) (saved : Bool) (rounds : List Round) (meta : Meta)
    → Distinct meta.to
    → max_tries ≤ saved_in ((errs, saved) ∷ rounds)
    → left_after max_tries ((errs, saved) ∷ rounds) (some meta) ≡ none
left_after_lem max_tries errs saved rounds meta d h =
    elim (Option-cases (left_after max_tries ((errs, saved) ∷ rounds) (some meta))) [
      | inl gone ↦ gone
      | inr (m, q) ↦ absurd (
          omega (
            arith,
            h,
            (left_after-tries max_tries 0 errs saved rounds meta m
                (record { distinct = d; tried = every meta.to }) q).1,
          ))
    ]
  where
    every : (to : List Text) → All (λ r. 0 ≤ before meta r) to
    every [] = tt
    every (r ∷ to) = (omega arith, every to)
