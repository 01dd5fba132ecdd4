-- ===== src/Remote/Pool/Kept.antt =====
-- No connection is lost or duplicated by the pool.
use sirr_mesh.Base.{
  ℕ, ◌+◌, ◌≡◌, refl, ap, ◌∙◌, Bool, true, false, Option, none, some, List, [], ◌∷◌, ◌++◌,
  Bool-cases, inl, inr, ltb, length, ◌==◌, arith, Text, text_eq_refl, lookup-insert, Map, lookup,
  insert, ◌/◌, ok,
}
use sirr_mesh.Remote.Pool.{
  Slot, Pool, Closing, Got, Config, second, keep_slot, drop_stale, clean_up, take_usable,
  found_or_new, from_bucket, drop_bucket, get_bucket, get, send, make_room, add_bucket, new_slot,
  return_bucket, return_conn, in_slots, idle, close_pool,
}
use sirr_mesh.Remote.Pool.Weights.{
  Unique, UniqueKeys, weigh, weigh-append, weigh_found, weigh_slot, slots, slots_cons, slots-insert,
  slots-delete, Balanced,
}

pub lookup-drop_stale :
    {C : Type 0} (cfg : Config C) (now : ℕ) (key : Text) (keys : Map (Slot C))
    → lookup key keys ≡ none
    → lookup key (drop_stale cfg now keys).left ≡ none
unfolding drop_stale keep_slot lookup
lookup-drop_stale cfg now key [] e = refl
lookup-drop_stale cfg now key ((k, v) ∷ keys) e =
    elim (Bool-cases (ltb (now / second) (v.last_use + cfg.stale_key_lifetime_sec))) [
      | inl b ↦ rw b (ground (arith, lookup-drop_stale cfg now key keys))
      | inr b ↦ rw b (ground (arith, lookup-drop_stale cfg now key keys))
    ]

module _ {C : Type 0} (cfg : Config C) (w : C → ℕ) where
  keep_slot-weigh :
      (b : Bool) (k : Text) (v : Slot C) (keys : Map (Slot C)) (r : Closing (Map (Slot C)) C)
      → Balanced w (slots w keys) r
      → Balanced w (slots w ((k, v) ∷ keys)) (keep_slot cfg b (k, v) r)
  unfolding keep_slot
  keep_slot-weigh true k v keys r h =
      omega (arith, h, slots_cons w k v keys, slots_cons w k v r.left)
  keep_slot-weigh false k v keys r h =
      omega (arith, h, slots_cons w k v keys, weigh-append w v.conns r.closed)

  drop_stale-weigh :
      (now : ℕ) (keys : Map (Slot C)) → Balanced w (slots w keys) (drop_stale cfg now keys)
  unfolding drop_stale in_slots
  drop_stale-weigh now [] = refl
  drop_stale-weigh now ((k, v) ∷ keys) =
      keep_slot-weigh (ltb (now / second) (v.last_use + cfg.stale_key_lifetime_sec)) k v keys
        (drop_stale cfg now keys) (drop_stale-weigh now keys)

  take_usable-weigh :
      (now : ℕ) (cs : List C)
      → weigh w cs
        ≡ weigh_found w (take_usable cfg now cs).1
          + weigh w (take_usable cfg now cs).0.closed
          + weigh w (take_usable cfg now cs).0.left
  unfolding take_usable
  take_usable-weigh now [] = refl
  take_usable-weigh now (c ∷ cs) = ground (arith, take_usable-weigh now cs)

  GotAll : ℕ → Got C → Type 0
  GotAll n r =
      (o : Option C) × (r.conn ≡ ok o)
      × (n ≡ weigh_found w o + weigh w r.got_closed + weigh w (idle r.pool))

  module _ (none_new : (key : Text) → cfg.new_conn key ≡ ok none) where
    from_bucket-weigh :
        (key : Text) (keys : Map (Slot C)) (v : Slot C) (r : Closing (List C) C) (found : Option C)
        → lookup key keys ≡ some v
        → weigh w v.conns ≡ weigh_found w found + weigh w r.closed + weigh w r.left
        → GotAll (slots w keys) (from_bucket cfg key keys v (r, found))
    unfolding GotAll from_bucket found_or_new idle
    from_bucket-weigh key keys v r none e h =
        let bucket = record v { conns = r.left } in
        (none, none_new key, omega (arith, h, slots-insert w key bucket keys, ap (weigh_slot w) e))
    from_bucket-weigh key keys v r (some c) e h =
        let bucket = record v { conns = r.left } in
        (some c, refl, omega (arith, h, slots-insert w key bucket keys, ap (weigh_slot w) e))

    get_bucket-weigh :
        (now : ℕ) (key : Text) (keys : Map (Slot C)) (o : Option (Slot C))
        → lookup key keys ≡ o
        → Unique keys
        → GotAll (slots w keys) (get_bucket cfg now key keys o)
    unfolding GotAll get_bucket drop_bucket idle
    get_bucket-weigh now key keys none e u = (none, none_new key, omega arith)
    get_bucket-weigh now key keys (some v) e u =
        elim (Bool-cases (ltb (v.last_use + cfg.max_conn_lifetime_sec) (now / second))) [
          | inl b ↦
              rw b
                (none, none_new key, omega (arith, slots-delete w key keys u, ap (weigh_slot w) e))
          | inr b ↦ rw b (
              from_bucket-weigh key keys v (take_usable cfg now v.conns).0
                (take_usable cfg now v.conns).1 e (take_usable-weigh now v.conns))
        ]

    -- If no connections are made on demand, as in the target, `Get` answers without an error and every
    -- idle connection of a pool with one bucket for each key is the one found, closed or still idle.
    pub get-kept :
        (now : ℕ) (key : Text) (p : Pool C)
        → UniqueKeys p
        → (o : Option C) × ((get cfg now key p).conn ≡ ok o)
          × (weigh w (idle p)
              ≡ weigh_found w o
                + weigh w (get cfg now key p).got_closed
                + weigh w (idle (get cfg now key p).pool))
    unfolding get GotAll idle
    get-kept now key none u = (none, none_new key, refl)
    get-kept now key (some keys) u = get_bucket-weigh now key keys (lookup key keys) refl u

  abbrev Returned : ℕ → Closing (Pool C) C → Type 0
  Returned n r = n ≡ weigh w r.closed + weigh w (idle r.left)

  send-weigh :
      (key : Text) (c : C) (keys : Map (Slot C)) (v : Slot C)
      → lookup key keys ≡ some v
      → Returned (w c + slots w keys) (send cfg key c keys v)
  unfolding send idle
  send-weigh key c keys v e = elim (Bool-cases (ltb (length v.conns) cfg.max_conns_per_key)) [
    | inl b ↦ rw b (
        omega (
          arith,
          slots-insert w key (record v { conns = v.conns ++ (c ∷ []) }) keys,
          ap (weigh_slot w) e,
          weigh-append w v.conns (c ∷ []),
        ))
    | inr b ↦ rw b (omega arith)
  ]

  add_bucket-weigh :
      (now : ℕ) (key : Text) (c : C) (n : ℕ) (room : Closing (Map (Slot C)) C)
      → lookup key room.left ≡ none
      → Balanced w n room
      → Returned (w c + n) (add_bucket cfg now key c room)
  unfolding add_bucket
  add_bucket-weigh now key c n room e h =
      let new = new_slot cfg now in
      let sent = send cfg key c (insert key new room.left) new in
      omega (
        arith,
        h,
        slots-insert w key new room.left,
        ap (weigh_slot w) e,
        send-weigh key c (insert key new room.left) new
            (lookup-insert key key new room.left ∙ rw (text_eq_refl key) refl),
        weigh-append w room.closed sent.closed,
      )

  make_room-weigh :
      (now : ℕ) (keys : Map (Slot C)) → Balanced w (slots w keys) (make_room cfg now keys)
  unfolding make_room
  make_room-weigh now keys = elim (Bool-cases (length keys == cfg.max_keys)) [
    | inl b ↦ rw b (drop_stale-weigh now keys)
    | inr b ↦ rw b (omega arith)
  ]

  lookup-make_room :
      (now : ℕ) (key : Text) (keys : Map (Slot C))
      → lookup key keys ≡ none
      → lookup key (make_room cfg now keys).left ≡ none
  unfolding make_room
  lookup-make_room now key keys e = elim (Bool-cases (length keys == cfg.max_keys)) [
    | inl b ↦ rw b (lookup-drop_stale cfg now key keys e)
    | inr b ↦ rw b e
  ]

  return_bucket-weigh :
      (now : ℕ) (key : Text) (c : C) (keys : Map (Slot C)) (o : Option (Slot C))
      → lookup key keys ≡ o
      → Returned (w c + slots w keys) (return_bucket cfg now key c keys o)
  unfolding return_bucket
  return_bucket-weigh now key c keys none e =
      add_bucket-weigh now key c (slots w keys) (make_room cfg now keys)
        (lookup-make_room now key keys e) (make_room-weigh now keys)
  return_bucket-weigh now key c keys (some v) e = send-weigh key c keys v e

  -- After `Return` to a pool that is not closed, the connection returned and those that were idle are
  -- either closed or idle, each of them once.
  pub return_conn-kept :
      (now : ℕ) (key : Text) (c : C) (keys : Map (Slot C))
      → w c + weigh w (idle (some keys))
        ≡ weigh w (return_conn cfg now key c (some keys)).closed
          + weigh w (idle (return_conn cfg now key c (some keys)).left)
  unfolding return_conn idle
  return_conn-kept now key c keys = return_bucket-weigh now key c keys (lookup key keys) refl

  -- `CleanUp` and `Close` keep an idle connection or close it, and after `Close` none is idle.
  pub clean_up-kept :
      (now : ℕ) (p : Pool C)
      → (weigh w (idle p)
          ≡ weigh w (clean_up cfg now p).closed + weigh w (idle (clean_up cfg now p).left))
        × (weigh w (idle p) ≡ weigh w (close_pool p).closed)
        × (idle (close_pool p).left ≡ [])
  unfolding clean_up close_pool idle
  clean_up-kept now none = (refl, refl, refl)
  clean_up-kept now (some keys) = (drop_stale-weigh now keys, refl, refl)
