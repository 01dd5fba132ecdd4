-- ===== src/Queue/Disk/Elsewhere.antt =====
-- Storing a message leaves the files of every other message alone.
use sirr_mesh.Base.{
  ◌≡◌, refl, ◌∙◌, false, Option, none, some, Text, text_eq, Map, lookup, insert, lookup-insert,
  lookup-delete,
}
use sirr_mesh.Exterrors.{Error}
use sirr_mesh.Queue.Disk.{
  Stored, Formats, Disk, Faults, removed, drop_header, drop_body, drop_meta, renamed, synced_meta,
  encoded_meta, created_meta, update_meta, synced, meta_stored, body_copied, body_created,
  body_opened, header_written, header_created, store_new_message,
}

-- The files of every other message are as they were.
abbrev pub Elsewhere : Text → Disk → Disk → Type 0
Elsewhere id d e =
    (j : Text)
    → text_eq id j ≡ false
    → (lookup j e.headers ≡ lookup j d.headers)
      × (lookup j e.bodies ≡ lookup j d.bodies)
      × (lookup j e.metas ≡ lookup j d.metas)

removed-elsewhere :
    (o : Option Error) (id j : Text) (files : Map Text)
    → text_eq id j ≡ false
    → lookup j (removed o id files) ≡ lookup j files
unfolding removed
removed-elsewhere none id j files n = lookup-delete id j files ∙ rw n
removed-elsewhere (some e) id j files n = refl

insert-elsewhere :
    (id j v : Text) (files : Map Text)
    → text_eq id j ≡ false
    → lookup j (insert id v files) ≡ lookup j files
insert-elsewhere id j v files n = lookup-insert id j v files ∙ rw n

module _ (f : Faults) (id : Text) (d : Disk) where
  pub drop_header-Elsewhere : (e : Disk) → Elsewhere id d e → Elsewhere id d (drop_header f id e)
  unfolding drop_header
  drop_header-Elsewhere e h j n =
      let r = removed-elsewhere f.remove_header id j e.headers n in
      (r ∙ (h j n).0, (h j n).1, (h j n).2)

  pub drop_body-Elsewhere : (e : Disk) → Elsewhere id d e → Elsewhere id d (drop_body f id e)
  unfolding drop_body
  drop_body-Elsewhere e h j n =
      let r = removed-elsewhere f.remove_body id j e.bodies n in
      ((h j n).0, r ∙ (h j n).1, (h j n).2)

  pub drop_meta-Elsewhere : (e : Disk) → Elsewhere id d e → Elsewhere id d (drop_meta f id e)
  unfolding drop_meta
  drop_meta-Elsewhere e h j n =
      let r = removed-elsewhere f.remove_meta id j e.metas n in
      ((h j n).0, (h j n).1, r ∙ (h j n).2)

  header-Elsewhere :
      (v : Text) (e : Disk)
      → Elsewhere id d e
      → Elsewhere id d (record e { headers = insert id v e.headers })
  header-Elsewhere v e h j n =
      (insert-elsewhere id j v e.headers n ∙ (h j n).0, (h j n).1, (h j n).2)

  body-Elsewhere :
      (v : Text) (e : Disk)
      → Elsewhere id d e
      → Elsewhere id d (record e { bodies = insert id v e.bodies })
  body-Elsewhere v e h j n = ((h j n).0, insert-elsewhere id j v e.bodies n ∙ (h j n).1, (h j n).2)

  -- The meta-data is replaced by a renaming.
  renamed-Elsewhere :
      (o : Option Error) (v : Text) (e : Disk)
      → Elsewhere id d e
      → Elsewhere id d (renamed o id v e).0
  unfolding renamed
  renamed-Elsewhere (some x) v e h = h
  renamed-Elsewhere none v e h =
      λ j n. ((h j n).0, (h j n).1, insert-elsewhere id j v e.metas n ∙ (h j n).2)

  synced_meta-Elsewhere :
      (o : Option Error) (v : Text) (e : Disk)
      → Elsewhere id d e
      → Elsewhere id d (synced_meta f id v e o).0
  unfolding synced_meta
  synced_meta-Elsewhere (some x) v e h = h
  synced_meta-Elsewhere none v e h = renamed-Elsewhere f.rename_meta v e h

  encoded_meta-Elsewhere :
      (o : Option Error) (v : Text) (e : Disk)
      → Elsewhere id d e
      → Elsewhere id d (encoded_meta f id v e o).0
  unfolding encoded_meta
  encoded_meta-Elsewhere (some x) v e h = h
  encoded_meta-Elsewhere none v e h =
      synced_meta-Elsewhere f.sync_meta v (record e { new_metas = insert id v e.new_metas }) h

  created_meta-Elsewhere :
      (o : Option Error) (v : Text) (e : Disk)
      → Elsewhere id d e
      → Elsewhere id d (created_meta f id v e o).0
  unfolding created_meta
  created_meta-Elsewhere (some x) v e h = h
  created_meta-Elsewhere none v e h = encoded_meta-Elsewhere f.encode_meta_file v e h

  synced-Elsewhere :
      (o p : Option Error) (e : Disk) → Elsewhere id d e → Elsewhere id d (synced o p e).0
  unfolding synced
  synced-Elsewhere (some x) p e h = h
  synced-Elsewhere none p e h = h

  meta_stored-Elsewhere :
      (r : Disk × Option Error) → Elsewhere id d r.0 → Elsewhere id d (meta_stored f id r).0
  unfolding meta_stored
  meta_stored-Elsewhere (e, some x) h =
      drop_header-Elsewhere (drop_body f id e) (drop_body-Elsewhere e h)
  meta_stored-Elsewhere (e, none) h = synced-Elsewhere f.sync_header f.sync_body e h

module _ {H : Type 0} (c : Formats H) (f : Faults) (id : Text) (m : Stored) (d : Disk) where
  body_copied-Elsewhere :
      (body : Text) (o : Option Error) (e : Disk)
      → Elsewhere id d e
      → Elsewhere id d (body_copied c f id m body e o).0
  unfolding body_copied update_meta
  body_copied-Elsewhere body (some x) e h =
      let e' = record e { bodies = insert id f.torn e.bodies } in
      drop_header-Elsewhere f id d (drop_body f id e')
        (drop_body-Elsewhere f id d e' (body-Elsewhere f id d f.torn e h))
  body_copied-Elsewhere body none e h =
      let e' = record e { bodies = insert id body e.bodies } in
      meta_stored-Elsewhere f id d (created_meta f id (c.encode_meta m) e' f.create_meta) (
        created_meta-Elsewhere f id d f.create_meta (c.encode_meta m) e'
          (body-Elsewhere f id d body e h))

  body_created-Elsewhere :
      (body : Text) (o : Option Error) (e : Disk)
      → Elsewhere id d e
      → Elsewhere id d (body_created c f id m body e o).0
  unfolding body_created
  body_created-Elsewhere body (some x) e h = h
  body_created-Elsewhere body none e h = body_copied-Elsewhere body f.copy_body e h

  body_opened-Elsewhere :
      (body : Text) (o : Option Error) (e : Disk)
      → Elsewhere id d e
      → Elsewhere id d (body_opened c f id m body e o).0
  unfolding body_opened
  body_opened-Elsewhere body (some x) e h = drop_header-Elsewhere f id d e h
  body_opened-Elsewhere body none e h = body_created-Elsewhere body f.create_body e h

  header_written-Elsewhere :
      (header : H) (body : Text) (o : Option Error) (e : Disk)
      → Elsewhere id d e
      → Elsewhere id d (header_written c f id m header body e o).0
  unfolding header_written
  header_written-Elsewhere header body (some x) e h =
      drop_header-Elsewhere f id d (record e { headers = insert id f.torn e.headers })
        (header-Elsewhere f id d f.torn e h)
  header_written-Elsewhere header body none e h =
      body_opened-Elsewhere body f.open_body
        (record e { headers = insert id (c.write_header header) e.headers })
        (header-Elsewhere f id d (c.write_header header) e h)

  header_created-Elsewhere :
      (header : H) (body : Text) (o : Option Error) (e : Disk)
      → Elsewhere id d e
      → Elsewhere id d (header_created c f id m header body e o).0
  unfolding header_created
  header_created-Elsewhere header body (some x) e h = h
  header_created-Elsewhere header body none e h =
      header_written-Elsewhere header body f.write_header_file e h

  pub store_new_message-Elsewhere :
      (header : H) (body : Text) → Elsewhere id d (store_new_message c f id m header body d).0
  unfolding store_new_message
  store_new_message-Elsewhere header body =
      header_created-Elsewhere header body f.create_header d (λ j n. (refl, refl, refl))
