-- ===== src/Remote/Pool/Tidy.antt =====
-- How many connections the pool keeps.
use sirr_mesh.Base.{
  ℕ, ◌+◌, ◌/◌, ◌≤◌, ◌≡◌, refl, subst, Bool, true, false, Option, none, some, List, [], ◌∷◌, ◌++◌,
  Bool-cases, Option-cases, inl, inr, ltb, length, length-append, ◌==◌, arith, Text, text_eq,
  text_eq_iff, Map, lookup, insert, delete, has_key, has_key-insert, lookup-delete,
}
use sirr_mesh.Remote.Pool.{
  Slot, Pool, Closing, Config, second, keep_slot, drop_stale, clean_up, take_usable, from_bucket,
  drop_bucket, get_bucket, get, send, make_room, add_bucket, new_slot, return_bucket, return_conn,
  close_pool,
}
use sirr_mesh.Remote.Pool.Weights.{Unique}
use sirr_mesh.Remote.Pool.Kept.{lookup-drop_stale}

has_key-none : {V : Type 0} (k : Text) (m : Map V) → has_key k m ≡ false → lookup k m ≡ none
has_key-none k m h = ground (arith, Option-cases (lookup k m))

module _ {C : Type 0} (cfg : Config C) where
  -- Within the capacity of its channel.
  abbrev Within : Slot C → Type 0
  Within v = length v.conns ≤ cfg.max_conns_per_key

  abbrev pub Tidy : Map (Slot C) → Type 0
  Tidy [] = Unit
  Tidy ((k, v) ∷ keys) = (has_key k keys ≡ false) × Within v × Tidy keys

  abbrev pub TidyPool : Pool C → Type 0
  TidyPool none = Unit
  TidyPool (some keys) = Tidy keys

  pub Tidy-Unique : (keys : Map (Slot C)) → Tidy keys → Unique keys
  Tidy-Unique [] t = tt
  Tidy-Unique ((k, v) ∷ keys) t = (t.0, Tidy-Unique keys t.2)

  Tidy-insert :
      (k : Text) (v : Slot C) (keys : Map (Slot C)) → Within v → Tidy keys → Tidy (insert k v keys)
  unfolding insert lookup
  Tidy-insert k v [] h t = (refl, h, tt)
  Tidy-insert k v ((j, u) ∷ keys) h t = elim (Bool-cases (text_eq j k)) [
    | inl e ↦ rw e (subst (λ i. has_key i keys ≡ false) ((text_eq_iff j k).0 e) t.0, h, t.2)
    | inr e ↦ rw e (
      ground (arith, has_key-insert k j v keys, text_eq_iff k j, text_eq_iff j k, t.0),
      t.1,
      Tidy-insert k v keys h t.2,
    )
  ]

  Tidy-delete : (k : Text) (keys : Map (Slot C)) → Tidy keys → Tidy (delete k keys)
  unfolding delete
  Tidy-delete k [] t = tt
  Tidy-delete k ((j, u) ∷ keys) t = elim (Bool-cases (text_eq j k)) [
    | inl e ↦ rw e (Tidy-delete k keys t.2)
    | inr e ↦ rw e (
      ground (arith, lookup-delete k j keys, has_key-none j keys t.0),
      t.1,
      Tidy-delete k keys t.2,
    )
  ]

  keep_slot-Tidy :
      (b : Bool) (k : Text) (v : Slot C) (r : Closing (Map (Slot C)) C)
      → has_key k r.left ≡ false
      → Within v
      → Tidy r.left
      → Tidy (keep_slot cfg b (k, v) r).left
  unfolding keep_slot
  keep_slot-Tidy true k v r h w t = (h, w, t)
  keep_slot-Tidy false k v r h w t = t

  drop_stale-Tidy :
      (now : ℕ) (keys : Map (Slot C)) → Tidy keys → Tidy (drop_stale cfg now keys).left
  unfolding drop_stale
  drop_stale-Tidy now [] t = tt
  drop_stale-Tidy now ((k, v) ∷ keys) t =
      keep_slot-Tidy (ltb (now / second) (v.last_use + cfg.stale_key_lifetime_sec)) k v
        (drop_stale cfg now keys)
        (rw (lookup-drop_stale cfg now k keys (has_key-none k keys t.0)) refl) t.1
        (drop_stale-Tidy now keys t.2)

  take_usable-length : (now : ℕ) (cs : List C) → length (take_usable cfg now cs).0.left ≤ length cs
  unfolding take_usable
  take_usable-length now [] = omega arith
  take_usable-length now (c ∷ cs) = ground (arith, take_usable-length now cs)

  lookup-Within :
      (k : Text) (keys : Map (Slot C)) (v : Slot C) → lookup k keys ≡ some v → Tidy keys → Within v
  unfolding lookup
  lookup-Within k [] v e t = absurd (ground (arith, e))
  lookup-Within k ((j, u) ∷ keys) v e t = elim (Bool-cases (text_eq j k)) [
    | inl b ↦ subst Within {x = u} {y = v} (cc (rw b at e)) t.1
    | inr b ↦ lookup-Within k keys v (rw b at e) t.2
  ]

  get_bucket-Tidy :
      (now : ℕ) (key : Text) (keys : Map (Slot C)) (o : Option (Slot C))
      → lookup key keys ≡ o
      → Tidy keys
      → TidyPool (get_bucket cfg now key keys o).pool
  unfolding get_bucket drop_bucket from_bucket
  get_bucket-Tidy now key keys none e t = t
  get_bucket-Tidy now key keys (some v) e t =
      elim (Bool-cases (ltb (v.last_use + cfg.max_conn_lifetime_sec) (now / second))) [
        | inl b ↦ rw b (Tidy-delete key keys t)
        | inr b ↦ rw b (
            Tidy-insert key (record v { conns = (take_usable cfg now v.conns).0.left }) keys
              (omega (arith, take_usable-length now v.conns, lookup-Within key keys v e t)) t)
      ]

  send-Tidy :
      (key : Text) (c : C) (keys : Map (Slot C)) (v : Slot C)
      → Tidy keys
      → TidyPool (send cfg key c keys v).left
  unfolding send
  send-Tidy key c keys v t = elim (Bool-cases (ltb (length v.conns) cfg.max_conns_per_key)) [
    | inl b ↦ rw b (
        Tidy-insert key (record v { conns = v.conns ++ (c ∷ []) }) keys
          (ground (arith, b, length-append v.conns (c ∷ []))) t)
    | inr b ↦ rw b t
  ]

  make_room-Tidy : (now : ℕ) (keys : Map (Slot C)) → Tidy keys → Tidy (make_room cfg now keys).left
  unfolding make_room
  make_room-Tidy now keys t = elim (Bool-cases (length keys == cfg.max_keys)) [
    | inl b ↦ rw b (drop_stale-Tidy now keys t)
    | inr b ↦ rw b t
  ]

  return_bucket-Tidy :
      (now : ℕ) (key : Text) (c : C) (keys : Map (Slot C)) (o : Option (Slot C))
      → Tidy keys
      → TidyPool (return_bucket cfg now key c keys o).left
  unfolding return_bucket add_bucket
  return_bucket-Tidy now key c keys none t =
      let room = make_room cfg now keys in
      let new = new_slot cfg now in
      send-Tidy key c (insert key new room.left) new
        (Tidy-insert key new room.left (omega arith) (make_room-Tidy now keys t))
  return_bucket-Tidy now key c keys (some v) t = send-Tidy key c keys v t

  return_conn-Tidy :
      (now : ℕ) (key : Text) (c : C) (p : Pool C)
      → TidyPool p
      → TidyPool (return_conn cfg now key c p).left
  unfolding return_conn
  return_conn-Tidy now key c none t = tt
  return_conn-Tidy now key c (some keys) t = return_bucket-Tidy now key c keys (lookup key keys) t

  clean_up-Tidy : (now : ℕ) (p : Pool C) → TidyPool p → TidyPool (clean_up cfg now p).left
  unfolding clean_up
  clean_up-Tidy now none t = tt
  clean_up-Tidy now (some keys) t = drop_stale-Tidy now keys t

  get-Tidy : (now : ℕ) (key : Text) (p : Pool C) → TidyPool p → TidyPool (get cfg now key p).pool
  unfolding get
  get-Tidy now key none t = tt
  get-Tidy now key (some keys) t = get_bucket-Tidy now key keys (lookup key keys) refl t

  -- Every operation of the pool keeps one bucket at most for each key, with at most
  -- `MaxConnsPerKey` connections in it.
  pub pool-Tidy :
      (now : ℕ) (key : Text) (c : C) (p : Pool C)
      → TidyPool p
      → TidyPool (get cfg now key p).pool
        × TidyPool (return_conn cfg now key c p).left
        × TidyPool (clean_up cfg now p).left
        × TidyPool (close_pool p).left
  unfolding close_pool
  pool-Tidy now key c p t =
      (get-Tidy now key p t, return_conn-Tidy now key c p t, clean_up-Tidy now p t, tt)
