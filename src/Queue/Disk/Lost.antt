-- ===== src/Queue/Disk/Lost.antt =====
-- Removing a message, replacing its meta-data, and the errors after which it stays.
use sirr_mesh.Base.{
  ◌≡◌, refl, subst, inl, inr, Bool, true, false, ◌&&◌, not, Option, none, some, if◌then◌else◌, Text,
  text_eq, text_eq_iff, Map, lookup, insert, lookup-insert, lookup-delete, is_some, arith,
  Bool-cases, Option-cases,
}
use sirr_mesh.Exterrors.{Error}
use sirr_mesh.Queue.Disk.{
  Stored, Formats, Disk, Faults, removed, drop_header, drop_body, drop_meta, renamed, synced_meta,
  encoded_meta, created_meta, update_meta, remove_from_disk, decoded, read_message_meta,
  with_header,
}
use sirr_mesh.Queue.Disk.Refines.{assembled, message_at}

lookup-removed :
    (o : Option Error) (id j : Text) (files : Map Text)
    → lookup j (removed o id files)
      ≡ (if not (is_some o) && text_eq id j then none else lookup j files)
unfolding removed
lookup-removed none id j files = lookup-delete id j files
lookup-removed (some e) id j files = refl

module _ {H : Type 0} (c : Formats H) where
  assembled-no_body : (m : Option Stored) (header : Option Text) → assembled c m none header ≡ none
  assembled-no_body none header = refl
  assembled-no_body (some m) header = refl

  assembled-no_header : (m : Option Stored) (body : Option Text) → assembled c m body none ≡ none
  assembled-no_header none body = refl
  assembled-no_header (some m) none = refl
  assembled-no_header (some m) (some b) = refl

  assembled-no_meta : (body header : Option Text) → assembled c none body header ≡ none
  assembled-no_meta body header = refl

  assembled-dropped :
      (same nh nb nm : Bool) (header body meta : Option Text)
      → assembled c
          (decoded c (if not nm && same then none else meta))
          (if not nb && same then none else body)
          (if not nh && same then none else header)
        ≡ (if same && not (nh && nb && nm) then none else assembled c (decoded c meta) body header)
  unfolding decoded
  assembled-dropped false nh nb nm header body meta = ground arith
  assembled-dropped true false nb nm header body meta =
      assembled-no_header (decoded c (if not nm && true then none else meta))
        (if not nb && true then none else body)
  assembled-dropped true true false nm header body meta =
      assembled-no_body (decoded c (if not nm && true then none else meta)) header
  assembled-dropped true true true false header body meta = assembled-no_meta body header
  assembled-dropped true true true true header body meta = refl

  -- Removing a message takes it from the directory if one of the three calls works, and touches no
  -- other message.
  pub remove_from_disk-Refines :
      (f : Faults) (id : Text) (d : Disk) (j : Text)
      → message_at c (remove_from_disk f id d) j ≡ (
          if text_eq id j
            && not (is_some f.remove_header && is_some f.remove_body && is_some f.remove_meta)
          then none
          else message_at c d j)
  unfolding remove_from_disk drop_header drop_body drop_meta read_message_meta decoded
  remove_from_disk-Refines f id d j =
      rw
        (
          lookup-removed f.remove_header id j d.headers,
          lookup-removed f.remove_body id j d.bodies,
          lookup-removed f.remove_meta id j d.metas,
        )
        (assembled-dropped (text_eq id j) (is_some f.remove_header) (is_some f.remove_body)
          (is_some f.remove_meta) (lookup j d.headers) (lookup j d.bodies) (lookup j d.metas))

  -- What holds of the files behind a replacement of the meta-data.
  abbrev Replaced : Text → Text → Disk → Disk × Option Error → Type 0
  Replaced id v d r =
      (r.0.headers ≡ d.headers)
      × (r.0.bodies ≡ d.bodies)
      × (r.0.metas ≡ (if is_some r.1 then d.metas else insert id v d.metas))

  created_meta-Replaced :
      (f : Faults) (id v : Text) (d : Disk) (o : Option Error)
      → Replaced id v d (created_meta f id v d o)
  unfolding created_meta encoded_meta synced_meta renamed
  created_meta-Replaced f id v d (some x) = (refl, refl, refl)
  created_meta-Replaced f id v d none = elim (Option-cases f.encode_meta_file) [
    | inr (x, p) ↦ rw p (refl, refl, refl)
    | inl p ↦ elim (Option-cases f.sync_meta) [
      | inr (x, q) ↦ rw (p, q) (refl, refl, refl)
      | inl q ↦ elim (Option-cases f.rename_meta) [
        | inr (x, r) ↦ rw (p, q, r) (refl, refl, refl)
        | inl r ↦ rw (p, q, r) (refl, refl, refl)
      ]
    ]
  ]

  abbrev pub with_meta : Stored → Option (Stored × H × Text) → Option (Stored × H × Text)
  with_meta m none = none
  with_meta m (some (old, header, body)) = some (m, header, body)

  with_header-with_meta :
      (old m : Stored) (body : Text) (header : Option H)
      → with_header c m body header ≡ with_meta m (with_header c old body header)
  unfolding with_header
  with_header-with_meta old m body none = refl
  with_header-with_meta old m body (some h) = refl

  assembled-with_meta :
      (o : Option Stored) (m : Stored) (body header : Option Text) {old : Stored × H × Text}
      → assembled c o body header ≡ some old
      → assembled c (some m) body header ≡ with_meta m (assembled c o body header)
  assembled-with_meta none m body header h = absurd (ground (arith, h))
  assembled-with_meta (some o) m none header h = refl
  assembled-with_meta (some o) m (some b) none h = refl
  assembled-with_meta (some o) m (some b) (some x) h = with_header-with_meta o m b (c.read_header x)

  -- Meta-data is replaced whole or, on an error, not at all; the header and the body stay, and so
  -- does every other message.
  pub update_meta-Refines :
      (f : Faults) (id : Text) (m : Stored) (d : Disk) {old : Stored × H × Text}
      → c.decode_meta (c.encode_meta m) ≡ some m
      → message_at c d id ≡ some old
      → (j : Text)
      → message_at c (update_meta c f id m d).0 j ≡ (
          if text_eq id j && not (is_some (update_meta c f id m d).1)
          then with_meta m (message_at c d j)
          else message_at c d j)
  unfolding update_meta read_message_meta decoded
  update_meta-Refines f id m d {old} dm there j =
      let r = created_meta f id (c.encode_meta m) d f.create_meta in
      let (hs, bs, ms) = created_meta-Replaced f id (c.encode_meta m) d f.create_meta in
      rw (hs, bs, ms)
        (elim (Bool-cases (is_some r.1)) [
          | inl failed ↦ rw failed (elim (Bool-cases (text_eq id j)) [
            | inl same ↦ rw same refl
            | inr other ↦ rw other refl
          ])
          | inr fine ↦
              rw (fine, lookup-insert id j (c.encode_meta m) d.metas)
                (elim (Bool-cases (text_eq id j)) [
                  | inr other ↦ rw other refl
                  | inl same ↦
                      let e : id ≡ j = (text_eq_iff id j).0 same in
                      let held : message_at c d j ≡ some old =
                        subst (λ k. message_at c d k ≡ some old) e there in
                      rw (same, dm)
                        (assembled-with_meta (decoded c (lookup j d.metas)) m (lookup j d.bodies)
                          (lookup j d.headers) held)
                ])
        ])
