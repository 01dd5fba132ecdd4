-- ===== src/Queue/Disk.antt =====
-- queue.go: the files of a message, `storeNewMessage`, `updateMetadataOnDisk`, `removeFromDisk`,
-- `readMessageMeta` and `openMessage`.
--
-- The queue's directory is four maps from the message's ID to the contents of `ID.header`, `ID.body`,
-- `ID.meta` and `ID.meta.new`. The formats of the header and of the meta-data are a parameter, and
-- so is which system call fails: a field of `Faults` is the error of one call, none if it succeeds.
-- A write that fails leaves some contents, `torn`. The path is the one for systems other than Windows.
pub mod Elsewhere
pub mod Refines
pub mod Lost
pub mod Tests
use sirr_mesh.Base.{ℕ, Option, none, some, Text, Map, lookup, insert, delete}
use sirr_mesh.Exterrors.{Error}
use sirr_mesh.Queue.Retry.{Meta}

-- What the meta-data file keeps of `QueueMetadata`.
pub record Stored : Type 0 where
  pub from : Text
  pub retry : Meta
  pub last_attempt : ℕ

pub record Formats (H : Type 0) : Type 0 where
  pub write_header : H → Text
  pub read_header : Text → Option H
  pub encode_meta : Stored → Text
  pub decode_meta : Text → Option Stored

pub record Disk : Type 0 where
  pub headers : Map Text
  pub bodies : Map Text
  pub metas : Map Text
  pub new_metas : Map Text

pub record Faults : Type 0 where
  pub create_header : Option Error
  pub write_header_file : Option Error
  pub open_body : Option Error
  pub create_body : Option Error
  pub copy_body : Option Error
  pub create_meta : Option Error
  pub encode_meta_file : Option Error
  pub sync_meta : Option Error
  pub rename_meta : Option Error
  pub sync_header : Option Error
  pub sync_body : Option Error
  -- the errors of `os.Remove`, of the header, the body and the meta-data
  pub remove_header : Option Error
  pub remove_body : Option Error
  pub remove_meta : Option Error
  pub torn : Text

-- `os.Remove`: a failing call, or one of a file that is not there, changes nothing.
removed : Option Error → Text → Map Text → Map Text
unfolding delete
removed none id files = delete id files
removed (some e) id files = files

unfoldable pub drop_header : Faults → Text → Disk → Disk
unfolding removed
drop_header f id d = record d { headers = removed f.remove_header id d.headers }

unfoldable pub drop_body : Faults → Text → Disk → Disk
unfolding removed
drop_body f id d = record d { bodies = removed f.remove_body id d.bodies }

unfoldable pub drop_meta : Faults → Text → Disk → Disk
unfolding removed
drop_meta f id d = record d { metas = removed f.remove_meta id d.metas }

-- `os.Rename(metaPath+".new", metaPath)`
renamed : Option Error → Text → Text → Disk → Disk × Option Error
unfolding insert delete
renamed (some e) id contents d = (d, some e)
renamed none id contents d =
    (record d { metas = insert id contents d.metas; new_metas = delete id d.new_metas }, none)

synced_meta : Faults → Text → Text → Disk → Option Error → Disk × Option Error
unfolding renamed
synced_meta f id contents d (some e) = (d, some e)
synced_meta f id contents d none = renamed f.rename_meta id contents d

encoded_meta : Faults → Text → Text → Disk → Option Error → Disk × Option Error
unfolding synced_meta insert
encoded_meta f id contents d (some e) =
    (record d { new_metas = insert id f.torn d.new_metas }, some e)
encoded_meta f id contents d none =
    synced_meta f id contents (record d { new_metas = insert id contents d.new_metas }) f.sync_meta

created_meta : Faults → Text → Text → Disk → Option Error → Disk × Option Error
unfolding encoded_meta
created_meta f id contents d (some e) = (d, some e)
created_meta f id contents d none = encoded_meta f id contents d f.encode_meta_file

-- The two `Sync` calls at the end; the files stay whatever they return.
synced : Option Error → Option Error → Disk → Disk × Option Error
synced (some e) body d = (d, some e)
synced none body d = (d, body)

meta_stored : Faults → Text → Disk × Option Error → Disk × Option Error
unfolding drop_header drop_body synced
meta_stored f id (d, some e) = (drop_header f id (drop_body f id d), some e)
meta_stored f id (d, none) = synced f.sync_header f.sync_body d

-- `removeFromDisk`
unfoldable pub remove_from_disk : Faults → Text → Disk → Disk
unfolding drop_header drop_body drop_meta
remove_from_disk f id d = drop_meta f id (drop_body f id (drop_header f id d))

module _ {H : Type 0} where
  -- `updateMetadataOnDisk`
  unfoldable pub update_meta : Formats H → Faults → Text → Stored → Disk → Disk × Option Error
  unfolding created_meta
  update_meta c f id m d = created_meta f id (c.encode_meta m) d f.create_meta

  body_copied :
      Formats H → Faults → Text → Stored → Text → Disk → Option Error → Disk × Option Error
  unfolding meta_stored update_meta insert drop_header drop_body
  body_copied c f id m body d (some e) =
      (drop_header f id (drop_body f id (record d { bodies = insert id f.torn d.bodies })), some e)
  body_copied c f id m body d none =
      meta_stored f id (update_meta c f id m (record d { bodies = insert id body d.bodies }))

  body_created :
      Formats H → Faults → Text → Stored → Text → Disk → Option Error → Disk × Option Error
  unfolding body_copied
  body_created c f id m body d (some e) = (d, some e)
  body_created c f id m body d none = body_copied c f id m body d f.copy_body

  body_opened :
      Formats H → Faults → Text → Stored → Text → Disk → Option Error → Disk × Option Error
  unfolding body_created drop_header
  body_opened c f id m body d (some e) = (drop_header f id d, some e)
  body_opened c f id m body d none = body_created c f id m body d f.create_body

  header_written :
      Formats H → Faults → Text → Stored → H → Text → Disk → Option Error → Disk × Option Error
  unfolding body_opened drop_header insert
  header_written c f id m h body d (some e) =
      (drop_header f id (record d { headers = insert id f.torn d.headers }), some e)
  header_written c f id m h body d none =
      body_opened c f id m body (record d { headers = insert id (c.write_header h) d.headers })
        f.open_body

  header_created :
      Formats H → Faults → Text → Stored → H → Text → Disk → Option Error → Disk × Option Error
  unfolding header_written
  header_created c f id m h body d (some e) = (d, some e)
  header_created c f id m h body d none = header_written c f id m h body d f.write_header_file

  -- `storeNewMessage`
  unfoldable pub store_new_message :
      Formats H → Faults → Text → Stored → H → Text → Disk → Disk × Option Error
  unfolding header_created
  store_new_message c f id m h body d = header_created c f id m h body d f.create_header

  decoded : Formats H → Option Text → Option Stored
  decoded c none = none
  decoded c (some contents) = c.decode_meta contents

  -- `readMessageMeta`
  unfoldable pub read_message_meta : Formats H → Text → Disk → Option Stored
  unfolding decoded lookup
  read_message_meta c id d = decoded c (lookup id d.metas)

  unfoldable pub with_header : Formats H → Stored → Text → Option H → Option (Stored × H × Text)
  with_header c m body none = none
  with_header c m body (some h) = some (m, h, body)

  -- From the `os.Open` of the header on: the files left, and the message.
  open_header :
      Formats H
      → Faults
      → Text
      → Stored
      → Text
      → Disk
      → Option Text
      → Disk × Option (Stored × H × Text)
  unfolding with_header drop_meta drop_body
  open_header c f id m body d none = (drop_body f id (drop_meta f id d), none)
  open_header c f id m body d (some header) = (d, with_header c m body (c.read_header header))

  open_body_file :
      Formats H → Faults → Text → Stored → Disk → Option Text → Disk × Option (Stored × H × Text)
  unfolding open_header drop_meta lookup
  open_body_file c f id m d none = (drop_meta f id d, none)
  open_body_file c f id m d (some body) = open_header c f id m body d (lookup id d.headers)

  open_meta : Formats H → Faults → Text → Disk → Option Stored → Disk × Option (Stored × H × Text)
  unfolding open_body_file lookup
  open_meta c f id d none = (d, none)
  open_meta c f id d (some m) = open_body_file c f id m d (lookup id d.bodies)

  -- `openMessage`
  unfoldable pub open_message : Formats H → Faults → Text → Disk → Disk × Option (Stored × H × Text)
  unfolding open_meta read_message_meta
  open_message c f id d = open_meta c f id d (read_message_meta c id d)
