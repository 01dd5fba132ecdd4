-- ===== src/Remote/Pool/Held.antt =====
-- A connection is handed out for the key that it was returned for.
use sirr_mesh.Base.{
  ℕ, ◌+◌, ◌/◌, ◌≡◌, refl, subst, Bool, true, false, Option, none, some, List, [], ◌∷◌, ◌++◌, All,
  All-append, Bool-cases, inl, inr, ltb, length, ◌==◌, arith, Text, text_eq, text_eq_iff, Map,
  lookup, insert, delete, ok,
}
use sirr_mesh.Remote.Pool.{
  Slot, Pool, Closing, Got, Config, second, alive, keep_slot, drop_stale, take_usable, found_or_new,
  from_bucket, drop_bucket, get_bucket, get, send, make_room, add_bucket, new_slot, return_bucket,
  return_conn,
}

module _ {C : Type 0} (P : Text → C → Type 0) where
  abbrev pub Held : Map (Slot C) → Type 0
  Held keys = All (λ e. All (P e.0) e.1.conns) keys

  abbrev pub HeldPool : Pool C → Type 0
  HeldPool none = Unit
  HeldPool (some keys) = Held keys

module _ {C : Type 0} (cfg : Config C) (P : Text → C → Type 0) where
  Held-insert :
      (k : Text) (v : Slot C) (keys : Map (Slot C))
      → All (P k) v.conns
      → Held P keys
      → Held P (insert k v keys)
  unfolding insert
  Held-insert k v [] h t = (h, tt)
  Held-insert k v ((j, u) ∷ keys) h t = elim (Bool-cases (text_eq j k)) [
    | inl e ↦ rw e (h, t.1)
    | inr e ↦ rw e (t.0, Held-insert k v keys h t.1)
  ]

  Held-delete : (k : Text) (keys : Map (Slot C)) → Held P keys → Held P (delete k keys)
  unfolding delete
  Held-delete k [] t = tt
  Held-delete k ((j, u) ∷ keys) t = elim (Bool-cases (text_eq j k)) [
    | inl e ↦ rw e (Held-delete k keys t.1)
    | inr e ↦ rw e (t.0, Held-delete k keys t.1)
  ]

  Held-lookup :
      (k : Text) (v : Slot C) (keys : Map (Slot C))
      → lookup k keys ≡ some v
      → Held P keys
      → All (P k) v.conns
  unfolding lookup
  Held-lookup k v [] e t = absurd (ground (arith, e))
  Held-lookup k v ((j, u) ∷ keys) e t = elim (Bool-cases (text_eq j k)) [
    | inl b ↦
        subst (λ x. All (P k) x.conns) {x = u} {y = v} (cc (rw b at e))
          (subst (λ i. All (P i) u.conns) ((text_eq_iff j k).0 b) t.0)
    | inr b ↦ Held-lookup k v keys (rw b at e) t.1
  ]

  keep_slot-Held :
      (b : Bool) (k : Text) (v : Slot C) (r : Closing (Map (Slot C)) C)
      → All (P k) v.conns
      → Held P r.left
      → Held P (keep_slot cfg b (k, v) r).left
  unfolding keep_slot
  keep_slot-Held true k v r h t = (h, t)
  keep_slot-Held false k v r h t = t

  drop_stale-Held :
      (now : ℕ) (keys : Map (Slot C)) → Held P keys → Held P (drop_stale cfg now keys).left
  unfolding drop_stale
  drop_stale-Held now [] t = tt
  drop_stale-Held now ((k, v) ∷ keys) t =
      keep_slot-Held (ltb (now / second) (v.last_use + cfg.stale_key_lifetime_sec)) k v
        (drop_stale cfg now keys) t.0 (drop_stale-Held now keys t.1)

  module _ (Q : C → Type 0) where
    abbrev FoundHeld : Option C → Type 0
    FoundHeld none = Unit {0}
    FoundHeld (some c) = Q c

    take_usable-Held :
        (now : ℕ) (cs : List C)
        → All Q cs
        → All Q (take_usable cfg now cs).0.left × FoundHeld (take_usable cfg now cs).1
    unfolding take_usable
    take_usable-Held now [] t = (tt, tt)
    take_usable-Held now (c ∷ cs) t = elim (Bool-cases (cfg.usable c)) [
      | inr b ↦ rw b (take_usable-Held now cs t.1)
      | inl b ↦ elim (Bool-cases (alive cfg now c)) [
        | inr d ↦ rw (b, d) (take_usable-Held now cs t.1)
        | inl d ↦ rw (b, d) (t.1, t.0)
      ]
    ]

  abbrev GotHeld : Text → Got C → Type 0
  GotHeld key g = HeldPool P g.pool × ((c : C) → g.conn ≡ ok (some c) → P key c)

  module _ (none_new : (key : Text) → cfg.new_conn key ≡ ok none) where
    none_got : (key : Text) (c : C) → cfg.new_conn key ≡ ok (some c) → P key c
    none_got key c e = absurd (ground (arith, none_new key, e))

    from_bucket-Held :
        (key : Text) (keys : Map (Slot C)) (v : Slot C) (r : Closing (List C) C) (found : Option C)
        → Held P keys
        → All (P key) r.left
        → FoundHeld (P key) found
        → GotHeld key (from_bucket cfg key keys v (r, found))
    unfolding from_bucket found_or_new
    from_bucket-Held key keys v r none t l f =
        (Held-insert key (record v { conns = r.left }) keys l t, none_got key)
    from_bucket-Held key keys v r (some d) t l f = (
      Held-insert key (record v { conns = r.left }) keys l t,
      λ c e. subst (P key) {x = d} {y = c} (cc e) f,
    )

    get_bucket-Held :
        (now : ℕ) (key : Text) (keys : Map (Slot C)) (o : Option (Slot C))
        → lookup key keys ≡ o
        → Held P keys
        → GotHeld key (get_bucket cfg now key keys o)
    unfolding get_bucket drop_bucket
    get_bucket-Held now key keys none e t = (t, none_got key)
    get_bucket-Held now key keys (some v) e t =
        let taken = take_usable-Held (P key) now v.conns (Held-lookup key v keys e t) in
        elim (Bool-cases (ltb (v.last_use + cfg.max_conn_lifetime_sec) (now / second))) [
          | inl b ↦ rw b (Held-delete key keys t, none_got key)
          | inr b ↦ rw b (
              from_bucket-Held key keys v (take_usable cfg now v.conns).0
                (take_usable cfg now v.conns).1 t taken.0 taken.1)
        ]

    -- If each idle connection has a property with the key of its bucket, and no connections are made on
    -- demand, that is so after `Get`, and a connection that it returns has the property with the key asked
    -- for.
    pub get-Held :
        (now : ℕ) (key : Text) (p : Pool C)
        → HeldPool P p
        → HeldPool P (get cfg now key p).pool
          × ((c : C) → (get cfg now key p).conn ≡ ok (some c) → P key c)
    unfolding get
    get-Held now key none t = (tt, none_got key)
    get-Held now key (some keys) t = get_bucket-Held now key keys (lookup key keys) refl t

  send-Held :
      (key : Text) (c : C) (keys : Map (Slot C)) (v : Slot C)
      → P key c
      → All (P key) v.conns
      → Held P keys
      → HeldPool P (send cfg key c keys v).left
  unfolding send
  send-Held key c keys v p h t = elim (Bool-cases (ltb (length v.conns) cfg.max_conns_per_key)) [
    | inl b ↦ rw b (
        Held-insert key (record v { conns = v.conns ++ (c ∷ []) }) keys
          (All-append (P key) v.conns (c ∷ []) h (p, tt)) t)
    | inr b ↦ rw b t
  ]

  make_room-Held :
      (now : ℕ) (keys : Map (Slot C)) → Held P keys → Held P (make_room cfg now keys).left
  unfolding make_room
  make_room-Held now keys t = elim (Bool-cases (length keys == cfg.max_keys)) [
    | inl b ↦ rw b (drop_stale-Held now keys t)
    | inr b ↦ rw b t
  ]

  return_bucket-Held :
      (now : ℕ) (key : Text) (c : C) (keys : Map (Slot C)) (o : Option (Slot C))
      → lookup key keys ≡ o
      → P key c
      → Held P keys
      → HeldPool P (return_bucket cfg now key c keys o).left
  unfolding return_bucket add_bucket
  return_bucket-Held now key c keys none e p t =
      let room = make_room cfg now keys in
      let new = new_slot cfg now in
      send-Held key c (insert key new room.left) new p tt
        (Held-insert key new room.left tt (make_room-Held now keys t))
  return_bucket-Held now key c keys (some v) e p t =
      send-Held key c keys v p (Held-lookup key v keys e t) t

  pub return_conn-Held :
      (now : ℕ) (key : Text) (c : C) (p : Pool C)
      → P key c
      → HeldPool P p
      → HeldPool P (return_conn cfg now key c p).left
  unfolding return_conn
  return_conn-Held now key c none h t = tt
  return_conn-Held now key c (some keys) h t =
      return_bucket-Held now key c keys (lookup key keys) refl h t
