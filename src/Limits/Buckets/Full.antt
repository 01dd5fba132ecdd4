-- ===== src/Limits/Buckets/Full.antt =====
-- A set of buckets that is full stays full.
use sirr_mesh.Base.{ℕ, ◌≤◌, ◌<◌, ◌≡◌, refl, none, [], ◌∷◌, length, All, Text, Map, arith}
use sirr_mesh.Limits.Limiters.{panicked}
use sirr_mesh.Limits.Buckets.{Bucket, BucketSet, reap, still_room, make_room, take_in, take_key}

-- No bucket was used in the future.
abbrev pub Past : ℕ → Map Bucket → Type 0
Past now m = All (λ e. e.1.last_use ≤ now) m

reap_lem : (now interval : ℕ) (m : Map Bucket) → Past now m → reap now interval m ≡ m
unfolding reap
reap_lem now interval [] h = refl
reap_lem now interval ((k, b) ∷ m) h = ground (arith, reap_lem now interval m h.1, h.0)

make_room-full :
    (now : ℕ) (s : BucketSet)
    → Past now s.buckets
    → s.max_buckets < length s.buckets
    → make_room now s ≡ none
unfolding make_room still_room
make_room-full now s past full =
    rw (reap_lem now s.reap_interval s.buckets past) (ground (arith, full))

-- With more buckets than the maximum, none of them used in the future, every take panics: no
-- bucket is stale in the eyes of `take`, whatever the time since its last use.
pub take_key-full :
    (now : ℕ) (key : Text) (s : BucketSet)
    → Past now s.buckets
    → s.max_buckets < length s.buckets
    → take_key now key s ≡ panicked
unfolding take_key take_in
take_key-full now key s past full = rw (make_room-full now s past full) refl
