-- ===== src/Queue/Disk/Refines.antt =====
-- The directory as a store of messages: what each operation does to the messages that it holds.
use sirr_mesh.Base.{
  ◌≡◌, refl, ◌∙◌, inl, inr, false, Option, none, some, if◌then◌else◌, Text, text_eq, text_eq_iff,
  text_eq_refl, Map, lookup, insert, lookup-insert, is_some, Bool-cases, Option-cases,
}
use sirr_mesh.Exterrors.{Error}
use sirr_mesh.Queue.Disk.{
  Stored, Formats, Disk, Faults, drop_header, drop_body, renamed, synced_meta, encoded_meta,
  created_meta, update_meta, synced, meta_stored, body_copied, body_created, body_opened,
  header_written, header_created, store_new_message, decoded, read_message_meta, with_header,
  open_header, open_body_file, open_meta, open_message,
}
use sirr_mesh.Queue.Disk.Elsewhere.{Elsewhere, store_new_message-Elsewhere}

module _ {H : Type 0} (c : Formats H) where
  abbrev pub assembled : Option Stored → Option Text → Option Text → Option (Stored × H × Text)
  assembled (some m) (some body) (some header) = with_header c m body (c.read_header header)
  assembled _ _ _ = none

  -- The message that the directory holds for an ID: its meta-data, its header and its body.
  abbrev pub message_at : Disk → Text → Option (Stored × H × Text)
  message_at d id = assembled (read_message_meta c id d) (lookup id d.bodies) (lookup id d.headers)

  open_meta-assembled :
      (f : Faults) (id : Text) (d : Disk) (m : Option Stored)
      → (open_meta c f id d m).1 ≡ assembled m (lookup id d.bodies) (lookup id d.headers)
  unfolding open_meta open_body_file open_header
  open_meta-assembled f id d none = refl
  open_meta-assembled f id d (some m) = elim (Option-cases (lookup id d.bodies)) [
    | inl e ↦ rw e refl
    | inr (b, e) ↦ elim (Option-cases (lookup id d.headers)) [
      | inl g ↦ rw (e, g) refl
      | inr (h, g) ↦ rw (e, g) refl
    ]
  ]

  -- `openMessage` returns the message that the directory holds.
  pub open_message-message_at :
      (f : Faults) (id : Text) (d : Disk) → (open_message c f id d).1 ≡ message_at d id
  unfolding open_message
  open_message-message_at f id d = open_meta-assembled f id d (read_message_meta c id d)

  message_at-Elsewhere :
      (id j : Text) (d e : Disk)
      → Elsewhere id d e
      → text_eq id j ≡ false
      → message_at e j ≡ message_at d j
  unfolding read_message_meta
  message_at-Elsewhere id j d e h n = let (x, y, z) = h j n in rw (x, y, z) refl

-- All three files of the message, or no meta-data: then it is not loaded.
abbrev Files : Text → Text → Text → Text → Disk × Option Error → Type 0
Files id header body meta (e, none) =
    (lookup id e.headers ≡ some header)
    × (lookup id e.bodies ≡ some body)
    × (lookup id e.metas ≡ some meta)
Files id header body meta (e, some x) = lookup id e.metas ≡ none

insert_self : (id v : Text) (files : Map Text) → lookup id (insert id v files) ≡ some v
insert_self id v files = lookup-insert id id v files ∙ rw (text_eq_refl id)

module _ (f : Faults) (id header body meta : Text) where
  renamed-Files :
      (o : Option Error) (e : Disk)
      → lookup id e.headers ≡ some header
      → lookup id e.bodies ≡ some body
      → lookup id e.metas ≡ none
      → Files id header body meta (renamed o id meta e)
  unfolding renamed
  renamed-Files (some x) e h b n = n
  renamed-Files none e h b n = (h, b, insert_self id meta e.metas)

  created_meta-Files :
      (o : Option Error) (e : Disk)
      → lookup id e.headers ≡ some header
      → lookup id e.bodies ≡ some body
      → lookup id e.metas ≡ none
      → Files id header body meta (created_meta f id meta e o)
  unfolding created_meta encoded_meta synced_meta
  created_meta-Files (some x) e h b n = n
  created_meta-Files none e h b n = elim (Option-cases f.encode_meta_file) [
    | inr (x, p) ↦ rw p n
    | inl p ↦ elim (Option-cases f.sync_meta) [
      | inr (y, q) ↦ rw (p, q) n
      | inl q ↦
          rw (p, q)
            (renamed-Files f.rename_meta (record e { new_metas = insert id meta e.new_metas }) h b
              n)
    ]
  ]

  meta_stored-Files :
      (r : Disk × Option Error)
      → f.sync_header ≡ none
      → f.sync_body ≡ none
      → Files id header body meta r
      → Files id header body meta (meta_stored f id r)
  unfolding meta_stored synced drop_header drop_body
  meta_stored-Files (e, none) p q h = rw (p, q) h
  meta_stored-Files (e, some x) p q h = h

module _ {H : Type 0} (c : Formats H) (f : Faults) (id : Text) (m : Stored) where
  body_created-Files :
      (header body : Text) (o : Option Error) (e : Disk)
      → f.sync_header ≡ none
      → f.sync_body ≡ none
      → lookup id e.headers ≡ some header
      → lookup id e.metas ≡ none
      → Files id header body (c.encode_meta m) (body_created c f id m body e o)
  unfolding body_created body_copied update_meta drop_header drop_body
  body_created-Files header body (some x) e p q h n = n
  body_created-Files header body none e p q h n = elim (Option-cases f.copy_body) [
    | inr (x, r) ↦ rw r n
    | inl r ↦
        let e' = record e { bodies = insert id body e.bodies } in
        rw r (
          meta_stored-Files f id header body (c.encode_meta m)
            (created_meta f id (c.encode_meta m) e' f.create_meta) p q
            (created_meta-Files f id header body (c.encode_meta m) f.create_meta e' h
              (insert_self id body e.bodies) n))
  ]

  store_new_message-Files :
      (header : H) (body : Text) (d : Disk)
      → f.sync_header ≡ none
      → f.sync_body ≡ none
      → lookup id d.metas ≡ none
      → Files id
          (c.write_header header)
          body
          (c.encode_meta m)
          (store_new_message c f id m header body d)
  unfolding store_new_message header_created header_written body_opened drop_header
  store_new_message-Files header body d p q n = elim (Option-cases f.create_header) [
    | inr (x, r) ↦ rw r n
    | inl r ↦ elim (Option-cases f.write_header_file) [
      | inr (x, s) ↦ rw (r, s) n
      | inl s ↦ elim (Option-cases f.open_body) [
        | inr (x, t) ↦ rw (r, s, t) n
        | inl t ↦
            rw (r, s, t)
              (body_created-Files (c.write_header header) body f.create_body
                (record d { headers = insert id (c.write_header header) d.headers }) p q
                (insert_self id (c.write_header header) d.headers) n)
      ]
    ]
  ]

  Files-message_at :
      (header : H) (body : Text) (r : Disk × Option Error)
      → c.read_header (c.write_header header) ≡ some header
      → c.decode_meta (c.encode_meta m) ≡ some m
      → Files id (c.write_header header) body (c.encode_meta m) r
      → message_at c r.0 id ≡ (if is_some r.1 then none else some (m, header, body))
  unfolding read_message_meta decoded with_header
  Files-message_at header body (e, none) rh dm (x, y, z) = rw (x, y, z, dm, rh) refl
  Files-message_at header body (e, some x) rh dm h = rw h refl

  -- With formats that read what they write: a message with a new ID is stored whole or, on an error
  -- other than that of the last two `Sync` calls, not at all, and no other message changes.
  pub store_new_message-Refines :
      (header : H) (body : Text) (d : Disk)
      → c.read_header (c.write_header header) ≡ some header
      → c.decode_meta (c.encode_meta m) ≡ some m
      → f.sync_header ≡ none
      → f.sync_body ≡ none
      → lookup id d.metas ≡ none
      → (j : Text)
      → message_at c (store_new_message c f id m header body d).0 j ≡ (
          if text_eq id j
          then (if is_some (store_new_message c f id m header body d).1
              then none
              else some (m, header, body))
          else message_at c d j)
  store_new_message-Refines header body d rh dm p q n j = elim (Bool-cases (text_eq id j)) [
    | inr other ↦ rw other (
        message_at-Elsewhere c id j d (store_new_message c f id m header body d).0
          (store_new_message-Elsewhere c f id m d header body) other)
    | inl same ↦
        let e : id ≡ j = (text_eq_iff id j).0 same in
        rw (same, ← e)
          (Files-message_at header body (store_new_message c f id m header body d) rh dm
            (store_new_message-Files header body d p q n))
  ]
