-- ===== src/Remote/Pool/Handed.antt =====
-- Which connections the pool hands out.
use sirr_mesh.Base.{
  ℕ, ◌+◌, ◌*◌, ◌/◌, ◌≤◌, ◌≡◌, subst, ◌∙◌, true, Option, none, some, List, [], ◌∷◌, Bool-cases,
  Option-cases, inl, inr, ltb, arith, Text, Map, lookup, ok,
}
use sirr_mesh.Remote.Pool.{
  Slot, Pool, Config, second, alive, take_usable, found_or_new, from_bucket, drop_bucket,
  get_bucket, get,
}

module _ {C : Type 0} (cfg : Config C) where
  abbrev pub Handed : ℕ → C → Type 0
  Handed now c =
      (cfg.usable c ≡ true) × (now ≤ cfg.last_use_at c + cfg.max_conn_lifetime_sec * second)

  take_usable-Handed :
      (now : ℕ) (cs : List C) (c : C) → (take_usable cfg now cs).1 ≡ some c → Handed now c
  unfolding take_usable
  take_usable-Handed now [] c e = absurd (ground (arith, e))
  take_usable-Handed now (x ∷ cs) c e = elim (Bool-cases (cfg.usable x)) [
    | inr b ↦ take_usable-Handed now cs c (rw b at e)
    | inl b ↦ elim (Bool-cases (alive cfg now x)) [
      | inr d ↦ take_usable-Handed now cs c (rw (b, d) at e)
      | inl d ↦ subst (Handed now) {x = x} {y = c} (cc (rw (b, d) at e)) (b, ground (arith, d))
    ]
  ]

  module _ (none_new : (key : Text) → cfg.new_conn key ≡ ok none) where
    new_then : (key : Text) (c : C) {A : Type 0} → cfg.new_conn key ≡ ok (some c) → A
    new_then key c e = absurd (ground (arith, none_new key, e))

    get_bucket-Handed :
        (now : ℕ) (key : Text) (keys : Map (Slot C)) (o : Option (Slot C)) (c : C)
        → (get_bucket cfg now key keys o).conn ≡ ok (some c)
        → Handed now c
    unfolding get_bucket drop_bucket from_bucket found_or_new
    get_bucket-Handed now key keys none c e = new_then key c e
    get_bucket-Handed now key keys (some v) c e =
        elim (Bool-cases (ltb (v.last_use + cfg.max_conn_lifetime_sec) (now / second))) [
          | inl b ↦ new_then key c (rw b at e)
          | inr b ↦ elim (Option-cases (take_usable cfg now v.conns).1) [
            | inl n ↦ new_then key c (rw (b, n) at e)
            | inr (d, n) ↦ take_usable-Handed now v.conns c (n ∙ cc (rw (b, n) at e))
          ]
        ]

    -- If no connections are made on demand, as in the target, a connection that `Get` returns is usable
    -- and was last used no longer ago than the lifetime.
    pub get-Handed :
        (now : ℕ) (key : Text) (p : Pool C) (c : C)
        → (get cfg now key p).conn ≡ ok (some c)
        → Handed now c
    unfolding get
    get-Handed now key none c e = new_then key c e
    get-Handed now key (some keys) c e = get_bucket-Handed now key keys (lookup key keys) c e
