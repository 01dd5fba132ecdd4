-- ===== src/Limits/Group/Tests.antt =====
-- Runs of the group and of its sets.
use sirr_mesh.Base.{◌*◌, ◌≡◌, refl, none, some, [], ◌∷◌, text, text_eq, lookup, insert}
use sirr_mesh.Limits.Limiters.{
  semaphore, context_done, took, refused, take_all, take_leaf, release_all,
}
use sirr_mesh.Limits.Buckets.{BucketSet, take_key, limiter_at, put_limiter, make_room}
use sirr_mesh.Limits.Group.{Group, scope_destination, concurrency_limit, read_limits, make_group}

-- One message of one source is in the works, and no more are allowed.
abbrev busy : BucketSet
busy = record {
  fresh = semaphore 1 0 ∷ [];
  reap_interval = 60;
  max_buckets = 10;
  buckets = (text "a.org", record { limiter = semaphore 1 1 ∷ []; last_use = 5 }) ∷ [];
}

abbrev busy_after : BucketSet
busy_after = record {
  fresh = semaphore 1 0 ∷ [];
  reap_interval = 60;
  max_buckets = 10;
  buckets = (text "a.org", record { limiter = semaphore 1 1 ∷ []; last_use = 7 }) ∷ [];
}

busy_run : take_key 7 (text "a.org") busy ≡ refused context_done busy_after
unfolding take_key limiter_at put_limiter make_room take_all take_leaf release_all text_eq lookup
    insert
busy_run = refl

abbrev by_source : Group
by_source = record { global = semaphore 3 0 ∷ []; ip = none; source = some busy; dest = none }

abbrev by_ip : Group
by_ip = record { global = semaphore 3 0 ∷ []; ip = some busy; source = none; dest = none }

global_run : take_all (semaphore 3 0 ∷ []) ≡ took (semaphore 3 1 ∷ [])
unfolding take_all take_leaf
global_run = refl

abbrev no_room : BucketSet
no_room = record {
  fresh = [];
  reap_interval = 60;
  max_buckets = 0;
  buckets = (text "a.org", record { limiter = []; last_use = 5 }) ∷ [];
}

-- A limit for the destinations only, and a bucket of theirs has none.
dest_limits_lost :
    (make_group (
      read_limits
        (record { global_limits = []; ip_limits = []; source_limits = []; dest_limits = [] })
        ((scope_destination, concurrency_limit 4) ∷ []))).dest
    ≡ some
        (record { fresh = []; reap_interval = 60 * 1000000000; max_buckets = 20010; buckets = [] })
unfolding make_group read_limits
dest_limits_lost = refl
