-- ===== src/Queue/Load/Tests.antt =====
-- A start with one whole message, and one without a body.
use sirr_mesh.Base.{◌+◌, ◌≡◌, ◌≢◌, ◌⊎◌, All, refl, false, List, [], ◌∷◌, Text, text, text_eq}
use sirr_mesh.Queue.Retry.Sorting.{Distinct}
use sirr_mesh.Queue.Disk.{Disk, read_message_meta, drop_meta, drop_body, drop_header}
use sirr_mesh.Queue.Disk.Tests.{no_faults, formats}
use sirr_mesh.Queue.Load.{Clock, Stats, next_try, read_disk_queue}
use sirr_mesh.Queue.Load.Loaded.{slot_of, slots_of, SameFiles, read_disk_queue-slots_of}

abbrev clock : Clock
clock = record { now = 100; post_init_delay = 30; due = λ last count. last + count }

abbrev no_stats : Stats
no_stats = record { stat_header_fails = λ id. false; stat_body_fails = λ id. false }

abbrev two_messages : Disk
two_messages = record {
  headers = (text "1", text "h") ∷ (text "2", text "h") ∷ [];
  bodies = (text "1", text "b") ∷ [];
  metas = (text "1", text "me") ∷ (text "2", text "me") ∷ [];
  new_metas = [];
}

abbrev entries : List Text
entries = text "1" ∷ text "2" ∷ []

entries-Distinct : Distinct entries
unfolding text_eq
entries-Distinct = ((refl, tt), (tt, tt))

-- The second one is cleared away.
load_run : read_disk_queue formats clock no_faults no_stats entries two_messages ≡ (
  record two_messages { headers = (text "1", text "h") ∷ []; metas = (text "1", text "me") ∷ [] },
  (text "1", 1000004) ∷ [],
)
unfolding read_disk_queue next_try text_eq read_message_meta drop_meta drop_body drop_header
load_run = refl

read_disk_queue-slots_of_example :
    ((read_disk_queue formats clock no_faults no_stats entries two_messages).1
      ≡ slots_of formats clock no_stats two_messages entries)
    × ((j : Text)
        → (slot_of formats clock no_stats two_messages j ≢ [])
          ⊎ All (λ id. text_eq id j ≡ false) entries
        → SameFiles formats clock no_stats j two_messages
            (read_disk_queue formats clock no_faults no_stats entries two_messages).0)
read_disk_queue-slots_of_example =
    read_disk_queue-slots_of formats clock no_stats no_faults entries two_messages entries-Distinct
