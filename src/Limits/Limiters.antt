-- ===== src/Limits/Limiters.antt =====
-- internal/limits/limiters: concurrency.go, rate.go and multilimit.go.
--
-- A limiter is the state of its channels. A `TakeContext` that finds nothing to take ends with the
-- error of its context: a release or a refill in time is a step that comes first. A panic is an
-- outcome.
pub mod Undo
mod Tests
use sirr_mesh.Base.{
  ℕ, leb, zero, suc, ◌+◌, Bool, true, false, Option, none, some, List, [], ◌∷◌, ◌++◌, Result, ok,
  err,
}

-- The limiters that wrap no others. Of a semaphore, the capacity and the length of `c`; of a rate,
-- the capacity and the length of `bucket`, and whether it is closed.
pub data Leaf : Type 0 where
  semaphore : ℕ → ℕ → Leaf
  rate : ℕ → ℕ → Bool → Leaf

pub data Denied : Type 0 where
  context_done bucket_closed : Denied

-- `NewSemaphore` and `NewRate`
abbrev pub new_semaphore : ℕ → Leaf
new_semaphore max = semaphore max 0

abbrev pub new_rate : ℕ → Leaf
new_rate burst = rate burst burst false

send : ℕ → ℕ → Bool → Result Denied Leaf
send cap used true = err context_done
send cap used false = ok (semaphore cap (suc used))

receive : ℕ → ℕ → Bool → Result Denied Leaf
receive burst zero true = err bucket_closed
receive burst zero false = err context_done
receive burst (suc tokens) closed = ok (rate burst tokens closed)

-- `TakeContext` of a semaphore and of a rate.
unfoldable pub take_leaf : Leaf → Result Denied Leaf
unfolding send receive
take_leaf (semaphore zero used) = ok (semaphore zero used)
take_leaf (semaphore (suc c) used) = send (suc c) used (leb (suc c) used)
take_leaf (rate zero tokens closed) = ok (rate zero tokens closed)
take_leaf (rate (suc b) tokens closed) = receive (suc b) tokens closed

-- `Release`; none is the panic of a mismatched call.
unfoldable pub release_leaf : Leaf → Option Leaf
release_leaf (semaphore zero used) = some (semaphore zero used)
release_leaf (semaphore (suc c) zero) = none
release_leaf (semaphore (suc c) (suc used)) = some (semaphore (suc c) used)
release_leaf (rate burst tokens closed) = some (rate burst tokens closed)

-- One tick of the timer of `fill`: the bucket is filled up.
unfoldable pub refill : Leaf → Leaf
refill (rate burst tokens false) = rate burst burst false
refill l = l

-- What a call that takes from a limiter, or from several, ends with.
pub data Taken (S : Type 0) : Type 0 where
  took : S → Taken S
  refused : Denied → S → Taken S
  panicked : Taken S

and_then : Option Leaf → Option (List Leaf) → Option (List Leaf)
and_then (some l) (some ls) = some (l ∷ ls)
and_then _ _ = none

-- `MultiLimit.Release`, and the loop that undoes a `MultiLimit.TakeContext`.
unfoldable pub release_all : List Leaf → Option (List Leaf)
unfolding and_then release_leaf
release_all [] = some []
release_all (l ∷ ls) = and_then (release_leaf l) (release_all ls)

-- The limiters behind the failed one are as they were.
undone : Denied → Option (List Leaf) → List Leaf → Taken (List Leaf)
undone e (some ls) rest = refused e (ls ++ rest)
undone e none rest = panicked

on_take :
    Result Denied Leaf
    → (Leaf → Taken (List Leaf))
    → (Denied → Taken (List Leaf))
    → Taken (List Leaf)
on_take (ok l) next stop = next l
on_take (err e) next stop = stop e

-- The loop of `MultiLimit.TakeContext`: the limiters taken, and those to take.
take_from : List Leaf → List Leaf → Taken (List Leaf)
unfolding on_take take_leaf undone release_all
take_from done [] = took done
take_from done (l ∷ ls) =
    on_take (take_leaf l) (λ l'. take_from (done ++ (l' ∷ [])) ls)
      (λ e. undone e (release_all done) (l ∷ ls))

unfoldable pub take_all : List Leaf → Taken (List Leaf)
unfolding take_from
take_all ls = take_from [] ls
