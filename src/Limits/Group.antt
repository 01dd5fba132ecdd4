-- ===== src/Limits/Group.antt =====
-- internal/limits/limits.go: the group of limits that an endpoint takes for a message.
--
-- The configuration is the list of its directives with their arguments parsed; a directive that does
-- not parse ends `Init` with an error, and is not in the list. An address is its text.
pub mod Refusal
mod Tests
use sirr_mesh.Base.{ℕ, ◌*◌, Option, none, some, List, [], ◌∷◌, ◌++◌, Text}
use sirr_mesh.Limits.Limiters.{
  Leaf, new_semaphore, new_rate, Denied, Taken, took, refused, panicked, take_all, release_all,
}
use sirr_mesh.Limits.Buckets.{BucketSet, new_bucket_set, take_key, release_key}

pub data Scope : Type 0 where
  scope_all scope_ip scope_source scope_destination : Scope

-- `rate` with its burst, or `concurrency` with its maximum.
pub data Kind : Type 0 where
  rate_limit concurrency_limit : ℕ → Kind

-- What `rateCtor` and `concurrencyCtor` construct.
abbrev construct : Kind → Leaf
construct (rate_limit burst) = new_rate burst
construct (concurrency_limit max) = new_semaphore max

-- `globalL`, `ipL`, `sourceL`, `destL`
pub record Scopes : Type 0 where
  pub global_limits : List Leaf
  pub ip_limits : List Leaf
  pub source_limits : List Leaf
  pub dest_limits : List Leaf

file_limit : Scope → Leaf → Scopes → Scopes
file_limit scope_all l s = record s { global_limits = s.global_limits ++ (l ∷ []) }
file_limit scope_ip l s = record s { ip_limits = s.ip_limits ++ (l ∷ []) }
file_limit scope_source l s = record s { source_limits = s.source_limits ++ (l ∷ []) }
file_limit scope_destination l s = record s { dest_limits = s.dest_limits ++ (l ∷ []) }

unfoldable pub read_limits : Scopes → List (Scope × Kind) → Scopes
unfolding file_limit
read_limits s [] = s
read_limits s ((scope, kind) ∷ directives) =
    read_limits (file_limit scope (construct kind) s) directives

pub record Group : Type 0 where
  pub global : List Leaf
  pub ip : Option BucketSet
  pub source : Option BucketSet
  pub dest : Option BucketSet

-- One minute, in nanoseconds.
abbrev pub minute : ℕ
minute = 60 * 1000000000

-- A set for a scope that has limits, with the limiters that its buckets get.
set_for : List Leaf → List Leaf → Option BucketSet
set_for [] fresh = none
set_for (l ∷ ls) fresh = some (new_bucket_set fresh minute 20010)

-- The end of `Init`. The buckets of `destination` get the limiters of `source`, as in the code.
unfoldable pub make_group : Scopes → Group
unfolding set_for
make_group s = record {
  global = s.global_limits;
  ip = set_for s.ip_limits s.ip_limits;
  source = set_for s.source_limits s.source_limits;
  dest = set_for s.dest_limits s.source_limits;
}

infixl 5 ◌>>=◌
abbrev ◌>>=◌ : {A B : Type 0} → Option A → (A → Option B) → Option B
none >>= next = none
some a >>= next = next a

with_global : Group → Option (List Leaf) → Option Group
with_global g none = none
with_global g (some ls) = some (record g { global = ls })

with_ip : Group → Option BucketSet → Option Group
with_ip g none = none
with_ip g (some s) = some (record g { ip = some s })

with_source : Group → Option BucketSet → Option Group
with_source g none = none
with_source g (some s) = some (record g { source = some s })

-- `g.global.Release()`; none is a panic, here and below.
release_global : Group → Option Group
unfolding with_global release_all
release_global g = with_global g (release_all g.global)

-- `g.ip.Release(addr)`: without a set it dereferences nil.
release_ip : Text → Group → Option BucketSet → Option Group
unfolding with_ip release_key
release_ip addr g none = none
release_ip addr g (some s) = with_ip g (release_key addr s)

-- `if g.ip != nil { g.ip.Release(addr) }`
release_ip_if : Text → Group → Option BucketSet → Option Group
unfolding release_ip
release_ip_if addr g none = some g
release_ip_if addr g (some s) = release_ip addr g (some s)

release_source_if : Text → Group → Option BucketSet → Option Group
unfolding with_source release_key
release_source_if domain g none = some g
release_source_if domain g (some s) = with_source g (release_key domain s)

refuse : Denied → Option Group → Taken Group
refuse e none = panicked
refuse e (some g) = refused e g

after_source : Text → Group → Taken BucketSet → Taken Group
unfolding refuse release_global release_ip
after_source addr g (took s) = took (record g { source = some s })
after_source addr g (refused e s) =
    refuse e (do g' ← release_global (record g { source = some s }); release_ip addr g' g'.ip)
after_source addr g panicked = panicked

take_source : ℕ → Text → Text → Group → Option BucketSet → Taken Group
unfolding after_source take_key
take_source now addr domain g none = took g
take_source now addr domain g (some s) = after_source addr g (take_key now domain s)

after_ip : ℕ → Text → Text → Group → Taken BucketSet → Taken Group
unfolding take_source refuse release_global
after_ip now addr domain g (took s) =
    take_source now addr domain (record g { ip = some s }) g.source
after_ip now addr domain g (refused e s) = refuse e (release_global (record g { ip = some s }))
after_ip now addr domain g panicked = panicked

take_ip : ℕ → Text → Text → Group → Option BucketSet → Taken Group
unfolding after_ip take_source take_key
take_ip now addr domain g none = take_source now addr domain g g.source
take_ip now addr domain g (some s) = after_ip now addr domain g (take_key now addr s)

after_global : ℕ → Text → Text → Group → Taken (List Leaf) → Taken Group
unfolding take_ip
after_global now addr domain g (took ls) = take_ip now addr domain (record g { global = ls }) g.ip
after_global now addr domain g (refused e ls) = refused e (record g { global = ls })
after_global now addr domain g panicked = panicked

-- `TakeMsg`
unfoldable pub take_msg : ℕ → Text → Text → Group → Taken Group
unfolding after_global take_all
take_msg now addr domain g = after_global now addr domain g (take_all g.global)

-- `ReleaseMsg`
unfoldable pub release_msg : Text → Text → Group → Option Group
unfolding release_global release_ip_if release_source_if
release_msg addr domain g = do
  g1 ← release_global g
  g2 ← release_ip_if addr g1 g1.ip
  release_source_if domain g2 g2.source

after_dest : Group → Taken BucketSet → Taken Group
after_dest g (took s) = took (record g { dest = some s })
after_dest g (refused e s) = refused e (record g { dest = some s })
after_dest g panicked = panicked

dest_taken : ℕ → Text → Group → Option BucketSet → Taken Group
unfolding after_dest take_key
dest_taken now domain g none = took g
dest_taken now domain g (some s) = after_dest g (take_key now domain s)

-- `TakeDest`
unfoldable pub take_dest : ℕ → Text → Group → Taken Group
unfolding dest_taken
take_dest now domain g = dest_taken now domain g g.dest

with_dest : Group → Option BucketSet → Option Group
with_dest g none = none
with_dest g (some s) = some (record g { dest = some s })

dest_released : Text → Group → Option BucketSet → Option Group
unfolding with_dest release_key
dest_released domain g none = some g
dest_released domain g (some s) = with_dest g (release_key domain s)

-- `ReleaseDest`
unfoldable pub release_dest : Text → Group → Option Group
unfolding dest_released
release_dest domain g = dest_released domain g g.dest
