-- ===== src/Queue/Retry/Sorting.antt =====
-- What the loop of `tryDelivery` makes of a list of different recipients.
use sirr_mesh.Base.{
  ℕ, ◌+◌, ◌≡◌, refl, ◌∙◌, inl, inr, Bool, true, false, not, ◌||◌, Option, none, some, List, [], ◌∷◌,
  ◌++◌, append-nil, append_assoc, arith, leb, if◌then◌else◌, Bool-cases, All, All-weaken, Text,
  text_eq, text_eq_iff, Map, lookup, insert, delete, lookup-insert, lookup-delete,
}
use sirr_mesh.Exterrors.{Error, is_temporary_or_unspec}
use sirr_mesh.Queue.Deliver.{Errs}
use sirr_mesh.Queue.Retry.{
  Meta, count_of, Sorted, sort_failed, sort_rcpt, sort_rcpts, sorting, sort_meta,
}

pub data Verdict : Type 0 where
  delivered failed retried : Verdict

-- What becomes of a recipient with `count` tries before the attempt.
unfoldable pub verdict_of : ℕ → ℕ → Option Error → Verdict
verdict_of max_tries count none = delivered
verdict_of max_tries count (some err) =
    if not (is_temporary_or_unspec err) || leb max_tries (count + 1) then failed else retried

abbrev pub is_failed : Verdict → Bool
is_failed failed = true
is_failed _ = false

abbrev pub is_retried : Verdict → Bool
is_retried retried = true
is_retried _ = false

-- The elements that pass a test, in order.
abbrev pub pick : (Text → Bool) → List Text → List Text
pick p [] = []
pick p (x ∷ xs) = let rest = pick p xs in if p x then x ∷ rest else rest

abbrev pub NotIn : Text → List Text → Type 0
NotIn x = All (λ r. text_eq x r ≡ false)

abbrev pub Distinct : List Text → Type 0
Distinct [] = Unit
Distinct (x ∷ xs) = NotIn x xs × Distinct xs

count_of-insert :
    (k j : Text) (n : ℕ) (m : Map ℕ)
    → count_of j (insert k n m) ≡ (if text_eq k j then n else count_of j m)
count_of-insert k j n m = rw (lookup-insert k j n m, count_of) (ground arith)

count_of-delete :
    (k j : Text) (m : Map ℕ) → count_of j (delete k m) ≡ (if text_eq k j then 0 else count_of j m)
count_of-delete k j m = rw (lookup-delete k j m, count_of) (ground arith)

append-pick :
    (xs : List Text) (x : Text) (b : Bool) (rest : List Text)
    → xs ++ (if b then x ∷ [] else []) ++ rest ≡ xs ++ (if b then x ∷ rest else rest)
append-pick xs x true rest = append_assoc xs (x ∷ []) rest
append-pick xs x false rest = rw append-nil

NotIn-symm : (x : Text) (to : List Text) → NotIn x to → All (λ r. text_eq r x ≡ false) to
NotIn-symm x to = All-weaken (λ r h. ground (arith, text_eq_iff x r, text_eq_iff r x)) to

module _ (max_tries : ℕ) where
  -- One round does not touch the counter of another recipient.
  sort_rcpt-count_of :
      (o : Option Error) (x r : Text) (s : Sorted)
      → text_eq x r ≡ false
      → count_of r (sort_rcpt max_tries o x s).tries ≡ count_of r s.tries
  unfolding sort_rcpt sort_failed
  sort_rcpt-count_of none x r s h = refl
  sort_rcpt-count_of (some err) x r s h =
      ground (
        arith,
        count_of-insert x r (count_of x s.tries + 1) s.tries,
        count_of-delete x r s.tries,
        h,
      )

  sort_rcpts-count_of :
      (errs : Errs) (to : List Text) (r : Text) (s : Sorted)
      → All (λ x. text_eq x r ≡ false) to
      → count_of r (sort_rcpts max_tries errs s to).tries ≡ count_of r s.tries
  unfolding sort_rcpts
  sort_rcpts-count_of errs [] r s h = refl
  sort_rcpts-count_of errs (x ∷ to) r s h =
      sort_rcpts-count_of errs to r (sort_rcpt max_tries (lookup x errs) x s) h.1
      ∙ sort_rcpt-count_of (lookup x errs) x r s h.0

  -- One round appends the recipient where its verdict says.
  sort_rcpt-lists :
      (o : Option Error) (x : Text) (s : Sorted)
      → let v = verdict_of max_tries (count_of x s.tries) o in
        ((sort_rcpt max_tries o x s).new_rcpts
          ≡ s.new_rcpts ++ (if is_retried v then x ∷ [] else []))
        × ((sort_rcpt max_tries o x s).failed_rcpts
            ≡ s.failed_rcpts ++ (if is_failed v then x ∷ [] else []))
  unfolding sort_rcpt sort_failed verdict_of
  sort_rcpt-lists none x s = (rw append-nil, rw append-nil)
  sort_rcpt-lists (some err) x s = ground (arith, append-nil s.new_rcpts, append-nil s.failed_rcpts)

  abbrev pub to_retry : Errs → (Text → ℕ) → Text → Bool
  to_retry errs g r = is_retried (verdict_of max_tries (g r) (lookup r errs))

  abbrev pub to_fail : Errs → (Text → ℕ) → Text → Bool
  to_fail errs g r = is_failed (verdict_of max_tries (g r) (lookup r errs))

  -- The counters of the recipients that are still to come are the ones from before the attempt.
  abbrev CountsAre : (Text → ℕ) → Sorted → List Text → Type 0
  CountsAre g s = All (λ r. count_of r s.tries ≡ g r)

  CountsAre-sort_rcpt :
      (g : Text → ℕ) (o : Option Error) (x : Text) (s : Sorted) (to : List Text)
      → NotIn x to
      → CountsAre g s to
      → CountsAre g (sort_rcpt max_tries o x s) to
  CountsAre-sort_rcpt g o x s [] d c = tt
  CountsAre-sort_rcpt g o x s (r ∷ to) d c =
      (sort_rcpt-count_of o x r s d.0 ∙ c.0, CountsAre-sort_rcpt g o x s to d.1 c.1)

  sort_rcpts-lists :
      (errs : Errs) (g : Text → ℕ) (to : List Text) (s : Sorted)
      → Distinct to
      → CountsAre g s to
      → ((sort_rcpts max_tries errs s to).new_rcpts ≡ s.new_rcpts ++ pick (to_retry errs g) to)
        × ((sort_rcpts max_tries errs s to).failed_rcpts
            ≡ s.failed_rcpts ++ pick (to_fail errs g) to)
  unfolding sort_rcpts
  sort_rcpts-lists errs g [] s d c = (rw append-nil, rw append-nil)
  sort_rcpts-lists errs g (x ∷ to) s d c =
      let s' : Sorted = sort_rcpt max_tries (lookup x errs) x s in
      let (new, old) =
        sort_rcpts-lists errs g to s' d.1 (CountsAre-sort_rcpt g (lookup x errs) x s to d.0 c.1) in
      let (n, f) = sort_rcpt-lists (lookup x errs) x s in
      (
        new ∙ rw n (rw c.0 (append-pick s.new_rcpts x _ _)),
        old ∙ rw f (rw c.0 (append-pick s.failed_rcpts x _ _)),
      )

  sort_rcpt_self :
      (o : Option Error) (x : Text) (s : Sorted)
      → is_retried (verdict_of max_tries (count_of x s.tries) o) ≡ true
      → count_of x (sort_rcpt max_tries o x s).tries ≡ count_of x s.tries + 1
  unfolding sort_rcpt sort_failed verdict_of
  sort_rcpt_self none x s h = cc
  sort_rcpt_self (some err) x s h =
      ground (arith, count_of-insert x x (count_of x s.tries + 1) s.tries, text_eq_iff x x)

  sort_rcpts-counts :
      (errs : Errs) (g : Text → ℕ) (to : List Text) (s : Sorted)
      → Distinct to
      → CountsAre g s to
      → All
          (λ r. count_of r (sort_rcpts max_tries errs s to).tries ≡ g r + 1)
          (pick (to_retry errs g) to)
  unfolding sort_rcpts
  sort_rcpts-counts errs g [] s d c = tt
  sort_rcpts-counts errs g (x ∷ to) s d c =
      let s' : Sorted = sort_rcpt max_tries (lookup x errs) x s in
      let rest =
        sort_rcpts-counts errs g to s' d.1 (CountsAre-sort_rcpt g (lookup x errs) x s to d.0 c.1) in
      elim (Bool-cases (to_retry errs g x)) [
        | inl e ↦ rw e (
          sort_rcpts-count_of errs to x s' (NotIn-symm x to d.0)
              ∙ sort_rcpt_self (lookup x errs) x s (rw c.0 e)
              ∙ rw c.0,
          rest,
        )
        | inr e ↦ rw e rest
      ]

abbrev pub before : Meta → Text → ℕ
before meta r = count_of r meta.tries_count

-- Before the first round.
CountsAre-refl : (meta : Meta) (to : List Text) → CountsAre 0 (before meta) (sorting meta) to
CountsAre-refl meta [] = tt
CountsAre-refl meta (r ∷ to) = (refl, CountsAre-refl meta to)

-- Of different recipients, those without an error are done; those with a permanent error, or with
-- their last try used up, are reported as failed; the others are tried again, in their order, and
-- their counters are one higher.
pub sort_meta_lem :
    (max_tries : ℕ) (errs : Errs) (meta : Meta)
    → Distinct meta.to
    → let s = sort_meta max_tries errs meta in
      (s.new_rcpts ≡ pick (to_retry max_tries errs (before meta)) meta.to)
      × (s.failed_rcpts ≡ pick (to_fail max_tries errs (before meta)) meta.to)
      × All (λ r. count_of r s.tries ≡ before meta r + 1) s.new_rcpts
unfolding sort_meta
sort_meta_lem max_tries errs meta d =
    let c = CountsAre-refl meta meta.to in
    let (new, old) = sort_rcpts-lists max_tries errs (before meta) meta.to (sorting meta) d c in
    let counts = sort_rcpts-counts max_tries errs (before meta) meta.to (sorting meta) d c in
    (new, old, rw new counts)
