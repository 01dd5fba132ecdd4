-- ===== src/Queue/Disk/Tests.antt =====
-- A directory with one message, and calls that fail.
use sirr_mesh.Base.{◌≡◌, refl, none, some, [], ◌∷◌, Text, text, text_eq, lookup}
use sirr_mesh.Exterrors.{plain}
use sirr_mesh.Queue.Disk.{
  Stored, Formats, Disk, Faults, store_new_message, update_meta, remove_from_disk, open_message,
  read_message_meta, with_header,
}
use sirr_mesh.Queue.Disk.Refines.{message_at, store_new_message-Refines}
use sirr_mesh.Queue.Disk.Lost.{update_meta-Refines, remove_from_disk-Refines}

abbrev pub meta : Stored
meta = record {
  from = text "me";
  retry = record { to = text "you" ∷ []; rcpt_errs = []; tries_count = [] };
  last_attempt = 5;
}

-- Formats for this one kind of meta-data.
abbrev pub formats : Formats Text
formats = record {
  write_header = λ h. h;
  read_header = λ t. some t;
  encode_meta = λ m. m.from;
  decode_meta = λ t. some (record meta { from = t });
}

abbrev pub no_faults : Faults
no_faults = record {
  create_header = none;
  write_header_file = none;
  open_body = none;
  create_body = none;
  copy_body = none;
  create_meta = none;
  encode_meta_file = none;
  sync_meta = none;
  rename_meta = none;
  sync_header = none;
  sync_body = none;
  remove_header = none;
  remove_body = none;
  remove_meta = none;
  torn = [];
}

abbrev empty_disk : Disk
empty_disk = record { headers = []; bodies = []; metas = []; new_metas = [] }

abbrev disk_full : Faults
disk_full = record no_faults { copy_body = some (plain (text "no space")) }

abbrev one_message : Disk
one_message =
    (store_new_message formats no_faults (text "1") meta (text "h") (text "b") empty_disk).0

stored_run :
    (open_message formats no_faults (text "1") one_message).1 ≡ some (meta, text "h", text "b")
unfolding store_new_message open_message text_eq
stored_run = refl

-- A full disk: nothing is left.
full_run :
    (store_new_message formats disk_full (text "1") meta (text "h") (text "b") empty_disk).0
    ≡ empty_disk
unfolding store_new_message text_eq lookup
full_run = refl

-- The body cannot be created: the header stays.
header_left :
    (store_new_message formats
      (record no_faults { create_body = some (plain []) })
      (text "1")
      meta
      (text "h")
      (text "b")
      empty_disk).0
    ≡ record empty_disk { headers = (text "1", text "h") ∷ [] }
unfolding store_new_message text_eq lookup
header_left = refl

-- After a failed `Sync` of the header the caller has an error, and the queue the whole message.
abbrev unsynced : Faults
unsynced = record no_faults { sync_header = some (plain (text "I/O")) }

unsynced_run :
    (open_message formats no_faults
      (text "1")
      (store_new_message formats unsynced (text "1") meta (text "h") (text "b") empty_disk).0).1
    ≡ some (meta, text "h", text "b")
unfolding store_new_message open_message text_eq
unsynced_run = refl

store_new_message-Refines_example :
    message_at formats
      (store_new_message formats disk_full (text "1") meta (text "h") (text "b") empty_disk).0
      (text "1")
    ≡ none
unfolding store_new_message text_eq lookup
store_new_message-Refines_example =
    store_new_message-Refines formats disk_full (text "1") meta (text "h") (text "b") empty_disk
      refl refl refl refl refl (text "1")

abbrev newer : Stored
newer = record meta { from = text "them" }

update_meta-Refines_example :
    message_at formats (update_meta formats no_faults (text "1") newer one_message).0 (text "1")
    ≡ some (newer, text "h", text "b")
unfolding update_meta store_new_message text_eq read_message_meta with_header
update_meta-Refines_example =
    update_meta-Refines formats no_faults (text "1") newer one_message
      {old = (meta, text "h", text "b")} refl refl (text "1")

remove_from_disk-Refines_example :
    message_at formats (remove_from_disk no_faults (text "1") one_message) (text "1") ≡ none
unfolding text_eq
remove_from_disk-Refines_example =
    remove_from_disk-Refines formats no_faults (text "1") one_message (text "1")
