-- ===== src/Remote/Pool.antt =====
-- internal/smtpconn/pool/pool.go: idle connections, in a bucket for each key.
--
-- A connection is known by what its methods answer. Each operation also gives the connections that it
-- closes. A channel is the list of what is in it, and its capacity is in the configuration. `now` is in
-- nanoseconds, and `Unix()` in seconds. Each operation is one step here, and `select` with a
-- default never waits. `Get` releases the lock before its loop over the channel, so that calls may come
-- in between that are left out.
pub mod Weights
pub mod Kept
pub mod Tidy
pub mod Held
pub mod Handed
mod Tests
use sirr_mesh.Base.{
  ℕ, ◌+◌, ◌*◌, ◌/◌, Bool, true, false, not, ◌==◌, ltb, Option, none, some, List, [], ◌∷◌, ◌++◌,
  if◌then◌else◌, length, Map, lookup, insert, delete, Text, Result, ok,
}
use sirr_mesh.Exterrors.{Error}

pub record Slot (C : Type 0) : Type 0 where
  pub conns : List C
  pub last_use : ℕ

-- `P.keys`, nil after `Close`.
abbrev pub Pool : Type 0 → Type 0
Pool C = Option (Map (Slot C))

abbrev pub second : ℕ
second = 1000000000

-- What an operation leaves, and what it closes.
pub record Closing (S C : Type 0) : Type 0 where
  pub left : S
  pub closed : List C

pub record Got (C : Type 0) : Type 0 where
  pub pool : Pool C
  pub got_closed : List C
  pub conn : Result Error (Option C)

pub record Config (C : Type 0) : Type 0 where
  pub new_conn : Text → Result Error (Option C)
  pub max_keys : ℕ
  pub max_conns_per_key : ℕ
  pub max_conn_lifetime_sec : ℕ
  pub stale_key_lifetime_sec : ℕ
  -- `Conn.Usable` and `Conn.LastUseAt`
  pub usable : C → Bool
  pub last_use_at : C → ℕ

module _ {C : Type 0} (cfg : Config C) where
  keep_slot : Bool → Text × Slot C → Closing (Map (Slot C)) C → Closing (Map (Slot C)) C
  keep_slot true e rest = record rest { left = e ∷ rest.left }
  keep_slot false e rest = record rest { closed = e.1.conns ++ rest.closed }

  -- The loop over the keys that drops the stale ones.
  pub drop_stale : ℕ → Map (Slot C) → Closing (Map (Slot C)) C
  unfolding keep_slot
  drop_stale now [] = record { left = []; closed = [] }
  drop_stale now ((k, v) ∷ keys) =
      let rest = drop_stale now keys in
      keep_slot (ltb (now / second) (v.last_use + cfg.stale_key_lifetime_sec)) (k, v) rest

  abbrev some_keys : Closing (Map (Slot C)) C → Closing (Pool C) C
  some_keys r = record { left = some r.left; closed = r.closed }

  -- `CleanUp`
  unfoldable pub clean_up : ℕ → Pool C → Closing (Pool C) C
  unfolding drop_stale
  clean_up now none = record { left = none; closed = [] }
  clean_up now (some keys) = some_keys (drop_stale now keys)

  -- Is the connection not past its lifetime?
  abbrev pub alive : ℕ → C → Bool
  alive now c = not (ltb (cfg.last_use_at c + cfg.max_conn_lifetime_sec * second) now)

  -- The loop of `Get`: what is left in the channel, what is closed, and the connection found.
  take_usable : ℕ → List C → Closing (List C) C × Option C
  take_usable now [] = (record { left = []; closed = [] }, none)
  take_usable now (c ∷ cs) =
      let (rest, found) = take_usable now cs in
      if not (cfg.usable c)
      then (record rest { closed = c ∷ rest.closed }, found)
      else if not (alive now c)
      then (record rest { closed = c ∷ rest.closed }, found)
      else (record { left = cs; closed = [] }, some c)

  found_or_new : Text → Option C → Result Error (Option C)
  found_or_new key none = cfg.new_conn key
  found_or_new key (some c) = ok (some c)

  from_bucket : Text → Map (Slot C) → Slot C → Closing (List C) C × Option C → Got C
  unfolding found_or_new insert
  from_bucket key keys v (r, found) = record {
    pool = some (insert key (record v { conns = r.left }) keys);
    got_closed = r.closed;
    conn = found_or_new key found;
  }

  drop_bucket : Text → Map (Slot C) → Slot C → Got C
  unfolding delete
  drop_bucket key keys v = record {
    pool = some (delete key keys);
    got_closed = v.conns;
    conn = cfg.new_conn key;
  }

  get_bucket : ℕ → Text → Map (Slot C) → Option (Slot C) → Got C
  unfolding from_bucket take_usable drop_bucket
  get_bucket now key keys none = record {
    pool = some keys;
    got_closed = [];
    conn = cfg.new_conn key;
  }
  get_bucket now key keys (some v) =
      if ltb (v.last_use + cfg.max_conn_lifetime_sec) (now / second)
      then drop_bucket key keys v
      else from_bucket key keys v (take_usable now v.conns)

  -- `Get`
  unfoldable pub get : ℕ → Text → Pool C → Got C
  unfolding get_bucket lookup
  get now key none = record { pool = none; got_closed = []; conn = cfg.new_conn key }
  get now key (some keys) = get_bucket now key keys (lookup key keys)

  -- The select at the end of `Return`. `lastUse` is set in a copy of the slot, and stays as it is.
  send : Text → C → Map (Slot C) → Slot C → Closing (Pool C) C
  unfolding insert
  send key c keys v =
      if ltb (length v.conns) cfg.max_conns_per_key
      then record {
        left = some (insert key (record v { conns = v.conns ++ (c ∷ []) }) keys);
        closed = [];
      }
      else record { left = some keys; closed = c ∷ [] }

  -- `if len(p.keys) == p.cfg.MaxKeys`
  make_room : ℕ → Map (Slot C) → Closing (Map (Slot C)) C
  unfolding drop_stale
  make_room now keys =
      if length keys == cfg.max_keys
      then drop_stale now keys
      else record { left = keys; closed = [] }

  abbrev closing_first : List C → Closing (Pool C) C → Closing (Pool C) C
  closing_first cs r = record r { closed = cs ++ r.closed }

  abbrev new_slot : ℕ → Slot C
  new_slot now = record { conns = []; last_use = now / second }

  add_bucket : ℕ → Text → C → Closing (Map (Slot C)) C → Closing (Pool C) C
  unfolding send insert
  add_bucket now key c room =
      closing_first room.closed (send key c (insert key (new_slot now) room.left) (new_slot now))

  return_bucket : ℕ → Text → C → Map (Slot C) → Option (Slot C) → Closing (Pool C) C
  unfolding send add_bucket make_room
  return_bucket now key c keys none = add_bucket now key c (make_room now keys)
  return_bucket now key c keys (some v) = send key c keys v

  -- `Return`: after `Close` the connection is neither kept nor closed.
  unfoldable pub return_conn : ℕ → Text → C → Pool C → Closing (Pool C) C
  unfolding return_bucket lookup
  return_conn now key c none = record { left = none; closed = [] }
  return_conn now key c (some keys) = return_bucket now key c keys (lookup key keys)

-- The connections in the channels.
unfoldable pub in_slots : {C : Type 0} → Map (Slot C) → List C
in_slots [] = []
in_slots ((k, v) ∷ keys) = v.conns ++ in_slots keys

unfoldable pub idle : {C : Type 0} → Pool C → List C
unfolding in_slots
idle none = []
idle (some keys) = in_slots keys

-- `Close`
unfoldable pub close_pool : {C : Type 0} → Pool C → Closing (Pool C) C
unfolding idle
close_pool p = record { left = none; closed = idle p }
