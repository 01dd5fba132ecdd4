-- ===== src/Queue/Load.antt =====
-- queue.go: `readDiskQueue`, which puts the messages on disk back on the wheel when the server starts.
--
-- The directory is read once, in its order: `entries` are the IDs of the `.meta` files, and the other
-- entries are passed over. `Checks` says for which ID an `os.Stat` fails though the file may be there.
pub mod Loaded
mod Tests
use sirr_mesh.Base.{
  ℕ, ◌+◌, Bool, true, false, Option, none, some, List, [], ◌∷◌, ◌++◌, ltb, if◌then◌else◌, Text, Map,
  lookup, has_key,
}
use sirr_mesh.Queue.Disk.{
  Stored, Formats, Disk, Faults, drop_header, drop_body, drop_meta, read_message_meta,
}

pub record Stats : Type 0 where
  pub stat_header_fails : Text → Bool
  pub stat_body_fails : Text → Bool

-- The smallest counter, or 999999.
unfoldable pub smallest_count : Map ℕ → ℕ → ℕ
smallest_count [] least = least
smallest_count ((r, n) ∷ tries) least = smallest_count tries (if ltb n least then n else least)

-- What the loop reads beside the files: the clock, `postInitDelay`, and the time that lies as many
-- tries behind the last attempt as were made. The latter is a parameter: for a message with no
-- failure yet the count is 999999, for which the conversion of the power to an integer is up to the
-- machine.
pub record Clock : Type 0 where
  pub now : ℕ
  pub post_init_delay : ℕ
  pub due : ℕ → ℕ → ℕ

unfoldable pub next_try : Clock → Stored → ℕ
unfolding smallest_count
next_try k m =
    let at = k.due m.last_attempt (smallest_count m.retry.tries_count 999999) in
    if ltb at (k.now + k.post_init_delay) then k.now + k.post_init_delay else at

-- An `os.Stat`: the call fails, the file is not there, or it is there.
pub data Stat : Type 0 where
  failed missing there : Stat

pub stat : Bool → Bool → Stat
stat true present = failed
stat false true = there
stat false false = missing

body_stat : Clock → Faults → Text → Stored → Disk → Stat → Disk × List (Text × ℕ)
unfolding drop_meta drop_header
body_stat k f id m d failed = (d, [])
body_stat k f id m d missing = (drop_header f id (drop_meta f id d), [])
body_stat k f id m d there = (d, (id, next_try k m) ∷ [])

header_stat : Clock → Faults → Text → Stored → Disk → Stat → Stat → Disk × List (Text × ℕ)
unfolding body_stat drop_meta drop_body
header_stat k f id m d body failed = (d, [])
header_stat k f id m d body missing = (drop_body f id (drop_meta f id d), [])
header_stat k f id m d body there = body_stat k f id m d body

module _ {H : Type 0} where
  with_meta_read :
      Formats H → Clock → Faults → Stats → Text → Disk → Option Stored → Disk × List (Text × ℕ)
  unfolding header_stat stat lookup
  with_meta_read c k f s id d none = (d, [])
  with_meta_read c k f s id d (some m) =
      header_stat k f id m d (stat (s.stat_body_fails id) (has_key id d.bodies))
        (stat (s.stat_header_fails id) (has_key id d.headers))

  load_one : Formats H → Clock → Faults → Stats → Text → Disk → Disk × List (Text × ℕ)
  unfolding with_meta_read read_message_meta
  load_one c k f s id d = with_meta_read c k f s id d (read_message_meta c id d)

  -- `readDiskQueue`: the files left, and what is added to the wheel, in order.
  unfoldable pub read_disk_queue :
      Formats H → Clock → Faults → Stats → List Text → Disk → Disk × List (Text × ℕ)
  unfolding load_one
  read_disk_queue c k f s [] d = (d, [])
  read_disk_queue c k f s (id ∷ entries) d =
      let (d1, slots) = load_one c k f s id d in
      let (d2, more) = read_disk_queue c k f s entries d1 in (d2, slots ++ more)
