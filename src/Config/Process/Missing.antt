-- ===== src/Config/Process/Missing.antt =====
-- The second loop of `ProcessWith`: the variables of the entries without a directive.
use sirr_mesh.Base.{
  ◌≡◌, refl, sym, ap, ◌∙◌, subst, Bool, true, false, Option, none, some, [], ◌∷◌, Bool-cases, inl,
  inr, arith, Text, text_eq, text_eq_iff, Map, lookup, lookup-insert, has_key, member,
  if◌then◌else◌, Result, ok, err,
}
use sirr_mesh.Config.Node.{Node, Reason, missing_required}
use sirr_mesh.Config.Process.{
  Matcher, Progress, settle, settled, or_default, without_global, or_global, missing_mapper,
  missing, missings, worth_storing,
}
use sirr_mesh.Config.Process.Matched.{Then, Then-bind, Registered}

unfoldable pub some_value :
    {V : Type 0} → Result Reason (Option V) → Result Reason (Option (Option V))
some_value (err e) = err e
some_value (ok v) = ok (some v)

unfoldable pub chosen_default :
    {V : Type 0} → Matcher V → Option (Result Reason (Option V)) → Result Reason (Option (Option V))
unfolding some_value
chosen_default m none = ok none
chosen_default m (some r) = some_value r

-- Without a directive: the global value if it is inherited, or else the default, unless it is required.
unfoldable pub chosen_missing :
    {V : Type 0} → Matcher V → Option (Option V) → Result Reason (Option (Option V))
unfolding chosen_default
chosen_missing m (some val) =
    if m.inherit_global
    then ok (some val)
    else if m.required
    then err (missing_required m.name)
    else chosen_default m m.default_val
chosen_missing m none =
    if m.required then err (missing_required m.name) else chosen_default m m.default_val

-- The value for the variable of an entry; `none` for none at all.
unfoldable pub chosen :
    {V : Type 0}
    → Matcher V
    → (Node → Result Reason (Option V))
    → Option (Option V)
    → Option Node
    → Result Reason (Option (Option V))
unfolding some_value chosen_missing
chosen m f global (some n) = some_value (f n)
chosen m f global none = chosen_missing m global

-- Is there one entry at most for each name?
abbrev pub UniqueNames : {V : Type 0} → Map (Matcher V) → Type 0
UniqueNames [] = Unit
UniqueNames ((k, m) ∷ entries) = (has_key k entries ≡ false) × UniqueNames entries

module _ {V : Type 0} (is_zero : V → Bool) (globals : Map (Option V)) (k : Text) where
  abbrev Stays : Progress V → Progress V → Type 0
  Stays p q = (member k q.matched ≡ member k p.matched) × (lookup k q.stores ≡ lookup k p.stores)

  settle-other :
      (m : Matcher V) (p : Progress V) (val : Option V)
      → text_eq m.name k ≡ false
      → Stays p (settle is_zero m p val)
  unfolding settle
  settle-other m p val h = elim (Bool-cases (worth_storing is_zero val)) [
    | inl w ↦ elim (Bool-cases m.store) [
      | inl b ↦ rw (w, b, lookup-insert m.name k val p.stores, h) (refl, refl)
      | inr b ↦ rw (w, b) (refl, refl)
    ]
    | inr w ↦ elim (Bool-cases m.store) [
      | inl b ↦ rw (w, b, lookup-insert m.name k val p.stores, h) (refl, refl)
      | inr b ↦ rw (w, b) (refl, refl)
    ]
  ]

  settle-own :
      (m : Matcher V) (p : Progress V) (val : Option V)
      → m.store ≡ true
      → text_eq m.name k ≡ true
      → (member k (settle is_zero m p val).matched ≡ member k p.matched)
        × (lookup k (settle is_zero m p val).stores ≡ some val)
  unfolding settle
  settle-own m p val b h = elim (Bool-cases (worth_storing is_zero val)) [
    | inl w ↦ rw (w, b, lookup-insert m.name k val p.stores, h) (refl, refl)
    | inr w ↦ rw (w, b, lookup-insert m.name k val p.stores, h) (refl, refl)
  ]

  or_default-other :
      (m : Matcher V) (p : Progress V) (o : Option (Result Reason (Option V)))
      → text_eq m.name k ≡ false
      → Then (Stays p) (or_default is_zero m p o)
  unfolding or_default settled
  or_default-other m p none h = (refl, refl)
  or_default-other m p (some (err e)) h = tt
  or_default-other m p (some (ok val)) h = settle-other m p val h

  without_global-other :
      (m : Matcher V) (p : Progress V)
      → text_eq m.name k ≡ false
      → Then (Stays p) (without_global is_zero m p)
  unfolding without_global
  without_global-other m p h = elim (Bool-cases m.required) [
    | inl b ↦ rw b tt
    | inr b ↦ rw b (or_default-other m p m.default_val h)
  ]

  or_global-other :
      (m : Matcher V) (p : Progress V) (o : Option (Option V))
      → text_eq m.name k ≡ false
      → Then (Stays p) (or_global is_zero m p o)
  unfolding or_global
  or_global-other m p none h = without_global-other m p h
  or_global-other m p (some val) h = elim (Bool-cases m.inherit_global) [
    | inl b ↦ rw b (settle-other m p val h)
    | inr b ↦ rw b (without_global-other m p h)
  ]

  missing_mapper-other :
      (m : Matcher V) (p : Progress V) (o : Option (Node → Result Reason (Option V)))
      → text_eq m.name k ≡ false
      → Then (Stays p) (missing_mapper is_zero globals m p o)
  unfolding missing_mapper
  missing_mapper-other m p none h = (refl, refl)
  missing_mapper-other m p (some f) h = or_global-other m p (lookup m.name globals) h

  missing-other :
      (m : Matcher V) (p : Progress V)
      → text_eq m.name k ≡ false
      → Then (Stays p) (missing is_zero globals m p)
  unfolding missing
  missing-other m p h = elim (Bool-cases (member m.name p.matched)) [
    | inl b ↦ rw b (refl, refl)
    | inr b ↦ rw b (missing_mapper-other m p m.mapper h)
  ]

  -- A property of the two is kept by the entries with other names.
  module _ (P : Bool → Option (Option V) → Type 0) where
    abbrev pub Of : Progress V → Type 0
    Of p = P (member k p.matched) (lookup k p.stores)

    Of-Stays : (p q : Progress V) → Of p → Stays p q → Of q
    Of-Stays p q h (e, d) =
        subst (λ b. P b (lookup k q.stores)) (sym e) (subst (P (member k p.matched)) (sym d) h)

    missings-other :
        (entries : Map (Matcher V)) (p : Progress V)
        → has_key k entries ≡ false
        → Registered entries
        → Of p
        → Then Of (missings is_zero globals entries p)
    unfolding missings lookup
    missings-other [] p n r h = h
    missings-other ((j, m) ∷ entries) p n r h = elim (Bool-cases (text_eq j k)) [
      | inl b ↦ absurd (ground (arith, (rw b at n)))
      | inr b ↦
          Then-bind (Stays p) Of (missing is_zero globals m p) (missings is_zero globals entries)
            (missing-other m p (ap (λ i. text_eq i k) r.0 ∙ b))
            (λ q s. missings-other entries q (rw b at n) r.1 (Of-Stays p q h s))
    ]

  module _ (m : Matcher V) (stored : m.store ≡ true) (named : text_eq m.name k ≡ true) where
    or_default-own :
        (p : Progress V) (o : Option (Result Reason (Option V)))
        → lookup k p.stores ≡ none
        → Then (λ q. chosen_default m o ≡ ok (lookup k q.stores)) (or_default is_zero m p o)
    unfolding or_default settled chosen_default some_value
    or_default-own p none h = ap ok (sym h)
    or_default-own p (some (err e)) h = tt
    or_default-own p (some (ok val)) h = ap ok (sym (settle-own m p val stored named).1)

    or_global-own :
        (p : Progress V) (o : Option (Option V))
        → lookup k p.stores ≡ none
        → Then (λ q. chosen_missing m o ≡ ok (lookup k q.stores)) (or_global is_zero m p o)
    unfolding or_global without_global chosen_missing
    or_global-own p none h = elim (Bool-cases m.required) [
      | inl b ↦ rw b tt
      | inr b ↦ rw b (or_default-own p m.default_val h)
    ]
    or_global-own p (some val) h = elim (Bool-cases m.inherit_global) [
      | inl i ↦ rw i (ap ok (sym (settle-own m p val stored named).1))
      | inr i ↦ elim (Bool-cases m.required) [
        | inl b ↦ rw (i, b) tt
        | inr b ↦ rw (i, b) (or_default-own p m.default_val h)
      ]
    ]

    module _ (f : Node → Result Reason (Option V)) (mapper : m.mapper ≡ some f)
        (S P : Bool → Option (Option V) → Type 0)
        (step : (p : Progress V) → Of S p → Then (Of P) (missing is_zero globals m p)) where
      pub missings-own :
          (entries : Map (Matcher V)) (p : Progress V)
          → lookup k entries ≡ some m
          → UniqueNames entries
          → Registered entries
          → Of S p
          → Then (Of P) (missings is_zero globals entries p)
      unfolding missings lookup
      missings-own [] p e u r h = absurd (ground (arith, e))
      missings-own ((j, d) ∷ entries) p e u r h = elim (Bool-cases (text_eq j k)) [
        | inl b ↦
            Then-bind (Of P) (Of P) (missing is_zero globals d p) (missings is_zero globals entries)
              (subst (λ x. Then (Of P) (missing is_zero globals x p)) {x = m} {y = d}
                (cc (rw b at e)) (step p h))
              (λ q s.
                missings-other P entries q
                  (subst (λ i. has_key i entries ≡ false) ((text_eq_iff j k).0 b) u.0) r.1 s)
        | inr b ↦
            Then-bind (Stays p) (Of P) (missing is_zero globals d p)
              (missings is_zero globals entries) (missing-other d p (ap (λ i. text_eq i k) r.0 ∙ b))
              (λ q s. missings-own entries q (rw b at e) u.1 r.1 (Of-Stays S p q h s))
      ]

    same_name : m.name ≡ k
    same_name = (text_eq_iff m.name k).0 named

    abbrev pub IsMatched : Option V → Bool → Option (Option V) → Type 0
    IsMatched v b s = (b ≡ true) × (s ≡ some v)

    abbrev pub IsUnmatched : Bool → Option (Option V) → Type 0
    IsUnmatched b s = (b ≡ false) × (s ≡ none)

    pub missing-IsMatched :
        (v : Option V) (p : Progress V)
        → Of (IsMatched v) p
        → Then (Of (IsMatched v)) (missing is_zero globals m p)
    unfolding missing
    missing-IsMatched v p h = rw (ap (λ i. member i p.matched) same_name ∙ h.0) h

    missing_mapper-own :
        (f : Node → Result Reason (Option V)) (p : Progress V)
        (o : Option (Node → Result Reason (Option V)))
        → o ≡ some f
        → lookup k p.stores ≡ none
        → Then
            (λ q. chosen_missing m (lookup k globals) ≡ ok (lookup k q.stores))
            (missing_mapper is_zero globals m p o)
    unfolding missing_mapper
    missing_mapper-own f p none e h = absurd (ground (arith, e))
    missing_mapper-own f p (some g) e h =
        subst
          (λ j.
            Then (λ q. chosen_missing m (lookup k globals) ≡ ok (lookup k q.stores))
              (or_global is_zero m p (lookup j globals)))
          (sym same_name) (or_global-own p (lookup k globals) h)

    pub missing-IsUnmatched :
        (f : Node → Result Reason (Option V)) (p : Progress V)
        → m.mapper ≡ some f
        → Of IsUnmatched p
        → Then
            (Of (λ b s. chosen_missing m (lookup k globals) ≡ ok s))
            (missing is_zero globals m p)
    unfolding missing
    missing-IsUnmatched f p e h =
        rw (ap (λ i. member i p.matched) same_name ∙ h.0) (missing_mapper-own f p m.mapper e h.1)
