-- ===== src/Remote/Pool/Weights.antt =====
-- The connections in the buckets, counted by an arbitrary weight.
use sirr_mesh.Base.{
  ℕ, ◌+◌, ◌≡◌, refl, ap, false, Option, none, some, List, [], ◌∷◌, ◌++◌, Bool-cases, inl, inr,
  arith, Text, text_eq, text_eq_iff, Map, lookup, insert, delete, has_key, subst,
}
use sirr_mesh.Remote.Pool.{Slot, Pool, Closing, in_slots}

-- Is there one entry at most for each key?
abbrev pub Unique : {V : Type 0} → Map V → Type 0
Unique [] = Unit
Unique ((k, v) ∷ m) = (has_key k m ≡ false) × Unique m

abbrev pub UniqueKeys : {C : Type 0} → Pool C → Type 0
UniqueKeys none = Unit
UniqueKeys (some keys) = Unique keys

-- The sum of the weights: that it is the same for any weight says that the connections are the same,
-- in any order.
module _ {C : Type 0} (w : C → ℕ) where
  abbrev pub weigh : List C → ℕ
  weigh [] = 0
  weigh (c ∷ cs) = w c + weigh cs

  pub weigh-append : (xs ys : List C) → weigh (xs ++ ys) ≡ weigh xs + weigh ys
  weigh-append [] ys = omega arith
  weigh-append (x ∷ xs) ys = omega (arith, weigh-append xs ys)

  abbrev pub weigh_found : Option C → ℕ
  weigh_found none = 0
  weigh_found (some c) = w c

  abbrev pub weigh_slot : Option (Slot C) → ℕ
  weigh_slot none = 0
  weigh_slot (some v) = weigh v.conns

  abbrev pub slots : Map (Slot C) → ℕ
  slots keys = weigh (in_slots keys)

  pub slots_cons :
      (k : Text) (v : Slot C) (keys : Map (Slot C))
      → slots ((k, v) ∷ keys) ≡ weigh v.conns + slots keys
  unfolding in_slots
  slots_cons k v keys = weigh-append v.conns (in_slots keys)

  pub slots-insert :
      (k : Text) (v : Slot C) (keys : Map (Slot C))
      → slots (insert k v keys) + weigh_slot (lookup k keys) ≡ weigh v.conns + slots keys
  unfolding insert lookup
  slots-insert k v [] = omega (arith, slots_cons k v [])
  slots-insert k v ((j, u) ∷ keys) = elim (Bool-cases (text_eq j k)) [
    | inl e ↦ rw e (omega (arith, slots_cons k v keys, slots_cons j u keys))
    | inr e ↦ rw e (
        omega (arith, slots_cons j u (insert k v keys), slots_cons j u keys, slots-insert k v keys))
  ]

  delete-absent : (k : Text) (keys : Map (Slot C)) → has_key k keys ≡ false → delete k keys ≡ keys
  unfolding delete lookup
  delete-absent k [] h = refl
  delete-absent k ((j, u) ∷ keys) h = elim (Bool-cases (text_eq j k)) [
    | inl e ↦ absurd (ground (arith, (rw e at h)))
    | inr e ↦ rw e (ap (λ m. (j, u) ∷ m) (delete-absent k keys (rw e at h)))
  ]

  pub slots-delete :
      (k : Text) (keys : Map (Slot C))
      → Unique keys
      → slots keys ≡ weigh_slot (lookup k keys) + slots (delete k keys)
  unfolding delete lookup in_slots
  slots-delete k [] u = refl
  slots-delete k ((j, v) ∷ keys) u = elim (Bool-cases (text_eq j k)) [
    | inl e ↦
        rw
          (
            e,
            delete-absent k keys (subst (λ i. has_key i keys ≡ false) ((text_eq_iff j k).0 e) u.0),
          )
          (slots_cons j v keys)
    | inr e ↦ rw e (
        omega (arith, slots_cons j v keys, slots_cons j v (delete k keys), slots-delete k keys u.1))
  ]

  abbrev pub Balanced : ℕ → Closing (Map (Slot C)) C → Type 0
  Balanced n r = n ≡ weigh r.closed + slots r.left
