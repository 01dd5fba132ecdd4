-- ===== src/Remote/Pool/Tests.antt =====
-- A pool whose connections are numbers: the time of the last use, in seconds, of which 101 is not usable.
use sirr_mesh.Base.{
  ℕ, ◌+◌, ◌*◌, ◌≡◌, refl, ap, not, Option, none, some, List, [], ◌∷◌, arith, ◌==◌, length, text,
  text_eq, Map, lookup, insert, delete, ok,
}
use sirr_mesh.Remote.Pool.{
  Slot, Pool, Config, second, get, return_conn, clean_up, close_pool, idle, drop_stale,
}
use sirr_mesh.Remote.Pool.Weights.{weigh, weigh_found}
use sirr_mesh.Remote.Pool.Kept.{get-kept, return_conn-kept}
use sirr_mesh.Remote.Pool.Tidy.{TidyPool, pool-Tidy}
use sirr_mesh.Remote.Pool.Handed.{Handed, get-Handed}

abbrev config : Config ℕ
config = record {
  new_conn = λ key. ok none;
  max_keys = 2;
  max_conns_per_key = 2;
  max_conn_lifetime_sec = 150;
  stale_key_lifetime_sec = 300;
  usable = λ c. not (c == 101);
  last_use_at = λ c. c * second;
}

abbrev bucket : List ℕ → ℕ → Slot ℕ
bucket cs t = record { conns = cs; last_use = t }

abbrev one_bucket : Pool ℕ
one_bucket = some ((text "a.org", bucket (101 ∷ 100 ∷ []) 90) ∷ [])

-- The connection that is not usable is closed, the other one is handed out.
got_run : get config (120 * second) (text "a.org") one_bucket ≡ record {
  pool = some ((text "a.org", bucket [] 90) ∷ []);
  got_closed = 101 ∷ [];
  conn = ok (some 100);
}
unfolding get lookup insert text_eq
got_run = refl

get-kept_example :
    (o : Option ℕ) × ((get config (120 * second) (text "a.org") one_bucket).conn ≡ ok o)
    × (weigh (λ c. c) (idle one_bucket)
        ≡ weigh_found (λ c. c) o
          + weigh (λ c. c) (get config (120 * second) (text "a.org") one_bucket).got_closed
          + weigh (λ c. c) (idle (get config (120 * second) (text "a.org") one_bucket).pool))
unfolding lookup
get-kept_example =
    get-kept config (λ c. c) (λ key. refl) (120 * second) (text "a.org") one_bucket (refl, tt)

abbrev full : Map (Slot ℕ)
full = (text "a.org", bucket (100 ∷ 102 ∷ []) 90) ∷ []

return_conn-kept_example :
    104 + weigh (λ c. c) (idle (some full))
    ≡ weigh (λ c. c) (return_conn config (120 * second) (text "a.org") 104 (some full)).closed
      + weigh
          (λ c. c)
          (idle (return_conn config (120 * second) (text "a.org") 104 (some full)).left)
return_conn-kept_example = return_conn-kept config (λ c. c) (120 * second) (text "a.org") 104 full

pool-Tidy_example :
    TidyPool config (get config (120 * second) (text "a.org") (some full)).pool
    × TidyPool config (return_conn config (120 * second) (text "a.org") 104 (some full)).left
    × TidyPool config (clean_up config (120 * second) (some full)).left
    × TidyPool config (close_pool (some full)).left
unfolding lookup
pool-Tidy_example =
    pool-Tidy config (120 * second) (text "a.org") 104 (some full) (refl, omega arith, tt)

get-Handed_example : Handed config (120 * second) 100
get-Handed_example =
    get-Handed config (λ key. refl) (120 * second) (text "a.org") one_bucket 100
      (ap (λ g. g.conn) got_run)

-- With the maximum of buckets and none stale, one more is added, and then no number of buckets is the maximum.
abbrev two : Map (Slot ℕ)
two = (text "a.org", bucket [] 90) ∷ (text "b.org", bucket [] 90) ∷ []

abbrev buckets : Pool ℕ → ℕ
buckets none = 0
buckets (some keys) = length keys

beyond_max_keys : buckets (return_conn config (120 * second) (text "c.org") 100 (some two)).left ≡ 3
unfolding return_conn lookup insert drop_stale text_eq
beyond_max_keys = refl

-- `lastUse` stays what it was when the bucket was made, however often it is used: after
-- `MaxConnLifetimeSec` the bucket is dropped with a connection that was used a second ago.
abbrev after_return : Pool ℕ
after_return =
    (return_conn config (240 * second) (text "a.org") 240
      (some ((text "a.org", bucket [] 90) ∷ []))).left

used_bucket_dropped : (get config (241 * second) (text "a.org") after_return).got_closed ≡ 240 ∷ []
unfolding get return_conn lookup insert delete text_eq
used_bucket_dropped = refl

-- A connection returned after `Close` is neither idle nor closed.
lost_after_close :
    return_conn config 0 (text "a.org") 100 none ≡ record { left = none; closed = [] }
unfolding return_conn
lost_after_close = refl
