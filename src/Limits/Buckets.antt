-- ===== src/Limits/Buckets.antt =====
-- internal/limits/limiters/bucket.go: limiters by key. `New` makes a `MultiLimit` of fresh limiters.
-- A limiter dropped from the set is also closed, which only those waiting for it notice.
pub mod Full
use sirr_mesh.Base.{
  ℕ, ◌+◌, Option, none, some, List, [], ◌∷◌, length, ltb, if◌then◌else◌, Text, Map, lookup, insert,
}
use sirr_mesh.Limits.Limiters.{Leaf, Taken, took, refused, panicked, take_all, release_all}

pub record Bucket : Type 0 where
  pub limiter : List Leaf
  pub last_use : ℕ

pub record BucketSet : Type 0 where
  pub fresh : List Leaf
  pub reap_interval : ℕ
  pub max_buckets : ℕ
  pub buckets : Map Bucket

-- `NewBucketSet`
abbrev pub new_bucket_set : List Leaf → ℕ → ℕ → BucketSet
new_bucket_set fresh interval max = record {
  fresh = fresh;
  reap_interval = interval;
  max_buckets = max;
  buckets = [];
}

-- The loop that drops the stale buckets: `v.lastUse.Sub(now) > r.ReapInterval`.
unfoldable pub reap : ℕ → ℕ → Map Bucket → Map Bucket
reap now interval [] = []
reap now interval ((k, b) ∷ m) =
    let rest = reap now interval m in
    if ltb (now + interval) b.last_use then rest else (k, b) ∷ rest

still_room : ℕ → Map Bucket → Option (Map Bucket)
still_room max m = if ltb max (length m) then none else some m

-- The map after the reaping, none if it is still full.
unfoldable pub make_room : ℕ → BucketSet → Option (Map Bucket)
unfolding still_room reap
make_room now s =
    if ltb s.max_buckets (length s.buckets)
    then still_room s.max_buckets (reap now s.reap_interval s.buckets)
    else some s.buckets

limiter_or : List Leaf → Option Bucket → List Leaf
limiter_or fresh none = fresh
limiter_or fresh (some b) = b.limiter

-- The limiter of a key, a fresh one if there is none.
unfoldable pub limiter_at : Text → BucketSet → List Leaf
unfolding limiter_or lookup
limiter_at key s = limiter_or s.fresh (lookup key s.buckets)

-- The set whose limiter at the key has become the one given.
unfoldable pub put_limiter : ℕ → Text → BucketSet → List Leaf → BucketSet
unfolding insert
put_limiter now key s limiter = record s {
  buckets = insert key (record { limiter = limiter; last_use = now }) s.buckets;
}

stored : ℕ → Text → BucketSet → Taken (List Leaf) → Taken BucketSet
unfolding put_limiter
stored now key s (took ls) = took (put_limiter now key s ls)
stored now key s (refused e ls) = refused e (put_limiter now key s ls)
stored now key s panicked = panicked

-- `take` returns nil for a full set, on which the caller calls a method.
take_in : ℕ → Text → BucketSet → Option (Map Bucket) → Taken BucketSet
unfolding stored limiter_at take_all
take_in now key s none = panicked
take_in now key s (some m) =
    let s' = record s { buckets = m } in stored now key s' (take_all (limiter_at key s'))

-- `BucketSet.TakeContext`, for a `New` that is not nil.
unfoldable pub take_key : ℕ → Text → BucketSet → Taken BucketSet
unfolding take_in make_room
take_key now key s = take_in now key s (make_room now s)

released : Text → BucketSet → ℕ → Option (List Leaf) → Option BucketSet
unfolding put_limiter
released key s used none = none
released key s used (some ls) = some (put_limiter used key s ls)

release_bucket : Text → BucketSet → Option Bucket → Option BucketSet
unfolding released release_all
release_bucket key s none = some s
release_bucket key s (some b) = released key s b.last_use (release_all b.limiter)

-- `BucketSet.Release`; none is a panic.
unfoldable pub release_key : Text → BucketSet → Option BucketSet
unfolding release_bucket lookup
release_key key s = release_bucket key s (lookup key s.buckets)
