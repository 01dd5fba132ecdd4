-- ===== src/Queue/Load/Loaded.antt =====
-- Which messages a start of the server puts back on the wheel.
use sirr_mesh.Base.{
  ℕ, ◌≡◌, ◌≢◌, ◌⊎◌, inl, inr, refl, sym, ap, ◌∙◌, Bool-cases, All, false, Option, none, some, List,
  [], ◌∷◌, ◌++◌, Text, text_eq, text_eq_iff, lookup, has_key,
}
use sirr_mesh.Queue.Retry.Sorting.{NotIn, Distinct}
use sirr_mesh.Queue.Disk.{Stored, Formats, Disk, Faults, drop_meta, read_message_meta}
use sirr_mesh.Queue.Disk.Elsewhere.{
  Elsewhere, drop_header-Elsewhere, drop_body-Elsewhere, drop_meta-Elsewhere,
}
use sirr_mesh.Queue.Load.{
  Clock, next_try, Stats, Stat, failed, missing, there, stat, body_stat, header_stat,
  with_meta_read, load_one, read_disk_queue,
}

abbrev slot : Clock → Text → Option Stored → Stat → Stat → List (Text × ℕ)
slot k id (some m) there there = (id, next_try k m) ∷ []
slot k id _ _ _ = []

same_disk : (id : Text) (d : Disk) → Elsewhere id d d
same_disk id d j n = (refl, refl, refl)

-- A message is put on the wheel only if its files are left alone.
Untouched : Disk × List (Text × ℕ) → Disk → Type 0
Untouched r d = r.1 ≢ [] → r.0 ≡ d

body_stat-Untouched :
    (k : Clock) (f : Faults) (id : Text) (m : Stored) (d : Disk) (b : Stat)
    → Untouched (body_stat k f id m d b) d
unfolding body_stat Untouched
body_stat-Untouched k f id m d failed h = refl
body_stat-Untouched k f id m d there h = refl
body_stat-Untouched k f id m d missing h = absurd (h refl)

header_stat-Untouched :
    (k : Clock) (f : Faults) (id : Text) (m : Stored) (d : Disk) (b h : Stat)
    → Untouched (header_stat k f id m d b h) d
unfolding header_stat Untouched
header_stat-Untouched k f id m d b failed h = refl
header_stat-Untouched k f id m d b missing h = absurd (h refl)
header_stat-Untouched k f id m d b there h = body_stat-Untouched k f id m d b h

body_stat-slot :
    (k : Clock) (f : Faults) (id : Text) (m : Stored) (d : Disk) (b : Stat)
    → ((body_stat k f id m d b).1 ≡ slot k id (some m) there b)
      × Elsewhere id d (body_stat k f id m d b).0
unfolding body_stat
body_stat-slot k f id m d failed = (refl, same_disk id d)
body_stat-slot k f id m d there = (refl, same_disk id d)
body_stat-slot k f id m d missing = (
  refl,
  drop_header-Elsewhere f id d (drop_meta f id d) (drop_meta-Elsewhere f id d d (same_disk id d)),
)

header_stat-slot :
    (k : Clock) (f : Faults) (id : Text) (m : Stored) (d : Disk) (b h : Stat)
    → ((header_stat k f id m d b h).1 ≡ slot k id (some m) h b)
      × Elsewhere id d (header_stat k f id m d b h).0
unfolding header_stat
header_stat-slot k f id m d b failed = (refl, same_disk id d)
header_stat-slot k f id m d b missing = (
  refl,
  drop_body-Elsewhere f id d (drop_meta f id d) (drop_meta-Elsewhere f id d d (same_disk id d)),
)
header_stat-slot k f id m d b there = body_stat-slot k f id m d b

module _ {H : Type 0} (c : Formats H) (k : Clock) (s : Stats) where
  -- The slot of a message whose meta-data can be read and whose two other files are there.
  abbrev pub slot_of : Disk → Text → List (Text × ℕ)
  slot_of d id =
      slot k id (read_message_meta c id d) (stat (s.stat_header_fails id) (has_key id d.headers))
        (stat (s.stat_body_fails id) (has_key id d.bodies))

  abbrev pub slots_of : Disk → List Text → List (Text × ℕ)
  slots_of d [] = []
  slots_of d (id ∷ entries) = slot_of d id ++ slots_of d entries

  with_meta_read-slot :
      (f : Faults) (id : Text) (d : Disk) (o : Option Stored)
      → ((with_meta_read c k f s id d o).1
          ≡ slot k id o
              (stat (s.stat_header_fails id) (has_key id d.headers))
              (stat (s.stat_body_fails id) (has_key id d.bodies)))
        × Elsewhere id d (with_meta_read c k f s id d o).0
  unfolding with_meta_read
  with_meta_read-slot f id d none = (refl, same_disk id d)
  with_meta_read-slot f id d (some m) =
      header_stat-slot k f id m d (stat (s.stat_body_fails id) (has_key id d.bodies))
        (stat (s.stat_header_fails id) (has_key id d.headers))

  with_meta_read-Untouched :
      (f : Faults) (id : Text) (d : Disk) (o : Option Stored)
      → Untouched (with_meta_read c k f s id d o) d
  unfolding with_meta_read Untouched
  with_meta_read-Untouched f id d none h = refl
  with_meta_read-Untouched f id d (some m) h =
      header_stat-Untouched k f id m d (stat (s.stat_body_fails id) (has_key id d.bodies))
        (stat (s.stat_header_fails id) (has_key id d.headers)) h

  slot_of-Elsewhere :
      (id j : Text) (d e : Disk)
      → Elsewhere id d e
      → text_eq id j ≡ false
      → slot_of e j ≡ slot_of d j
  unfolding read_message_meta
  slot_of-Elsewhere id j d e h n = let (x, y, z) = h j n in rw (x, y, z) refl

  slots_of-Elsewhere :
      (id : Text) (entries : List Text) (d e : Disk)
      → Elsewhere id d e
      → NotIn id entries
      → slots_of e entries ≡ slots_of d entries
  slots_of-Elsewhere id [] d e h n = refl
  slots_of-Elsewhere id (j ∷ entries) d e h n =
      rw (slot_of-Elsewhere id j d e h n.0, slots_of-Elsewhere id entries d e h n.1) refl

  -- The header, the body and the meta-data of a message are as they were.
  abbrev pub SameFiles : Text → Disk → Disk → Type 0
  SameFiles j d e =
      (lookup j e.headers ≡ lookup j d.headers)
      × (lookup j e.bodies ≡ lookup j d.bodies)
      × (lookup j e.metas ≡ lookup j d.metas)

  SameFiles-trans : (j : Text) (d e g : Disk) → SameFiles j d e → SameFiles j e g → SameFiles j d g
  SameFiles-trans j d e g (x, y, z) (x', y', z') = (x' ∙ x, y' ∙ y, z' ∙ z)

  -- One entry leaves the files of a message that is put on the wheel alone, whichever it is.
  one-SameFiles :
      (f : Faults) (id j : Text) (d : Disk)
      → (slot_of d j ≢ []) ⊎ (text_eq id j ≡ false)
      → SameFiles j d (with_meta_read c k f s id d (read_message_meta c id d)).0
  unfolding Untouched
  one-SameFiles f id j d (inr n) = (with_meta_read-slot f id d (read_message_meta c id d)).1 j n
  one-SameFiles f id j d (inl h) =
      let o = read_message_meta c id d in
      let (e, away) = with_meta_read-slot f id d o in
      elim (Bool-cases (text_eq id j)) [
        | inr n ↦ away j n
        | inl b ↦
            let kept = with_meta_read-Untouched f id d o (λ none_left.
              h (ap (slot_of d) (sym ((text_eq_iff id j).0 b)) ∙ sym e ∙ none_left)) in
            (
              ap (λ x. lookup j x.headers) kept,
              ap (λ x. lookup j x.bodies) kept,
              ap (λ x. lookup j x.metas) kept,
            )
      ]

  read_disk_queue-SameFiles :
      (f : Faults) (entries : List Text) (d : Disk) (j : Text)
      → (slot_of d j ≢ []) ⊎ All (λ id. text_eq id j ≡ false) entries
      → SameFiles j d (read_disk_queue c k f s entries d).0
  unfolding read_disk_queue load_one read_message_meta
  read_disk_queue-SameFiles f [] d j h = (refl, refl, refl)
  read_disk_queue-SameFiles f (id ∷ entries) d j (inr n) =
      let one = with_meta_read c k f s id d (read_message_meta c id d) in
      SameFiles-trans j d one.0 (read_disk_queue c k f s entries one.0).0
        (one-SameFiles f id j d (inr n.0)) (read_disk_queue-SameFiles f entries one.0 j (inr n.1))
  read_disk_queue-SameFiles f (id ∷ entries) d j (inl h) =
      let one = with_meta_read c k f s id d (read_message_meta c id d) in
      let (x, y, z) = one-SameFiles f id j d (inl h) in
      let here : slot_of one.0 j ≡ slot_of d j = rw (x, y, z) refl in
      SameFiles-trans j d one.0 (read_disk_queue c k f s entries one.0).0 (x, y, z)
        (read_disk_queue-SameFiles f entries one.0 j (inl (λ none_left. h (sym here ∙ none_left))))

  loaded_slots :
      (f : Faults) (entries : List Text) (d : Disk)
      → Distinct entries
      → (read_disk_queue c k f s entries d).1 ≡ slots_of d entries
  unfolding read_disk_queue load_one
  loaded_slots f [] d h = refl
  loaded_slots f (id ∷ entries) d h =
      let one = with_meta_read c k f s id d (read_message_meta c id d) in
      let (e, away) = with_meta_read-slot f id d (read_message_meta c id d) in
      rw (e, loaded_slots f entries one.0 h.1, slots_of-Elsewhere id entries d one.0 away h.0) refl

  -- Of different entries, just those are put on the wheel whose meta-data can be read and whose header
  -- and body are there, in the order of the entries. The files of a message for which this holds are left
  -- as they were, and so are those of a message that is not one of the entries.
  pub read_disk_queue-slots_of :
      (f : Faults) (entries : List Text) (d : Disk)
      → Distinct entries
      → ((read_disk_queue c k f s entries d).1 ≡ slots_of d entries)
        × ((j : Text)
            → (slot_of d j ≢ []) ⊎ All (λ id. text_eq id j ≡ false) entries
            → SameFiles j d (read_disk_queue c k f s entries d).0)
  read_disk_queue-slots_of f entries d h =
      (loaded_slots f entries d h, read_disk_queue-SameFiles f entries d)
