-- ===== src/Config/Process/Matched.antt =====
-- The first loop of `ProcessWith`: what the directives of the block leave for one entry.
use sirr_mesh.Base.{
  ℕ, ◌+◌, ◌≤◌, ◌≡◌, refl, sym, ap, ◌∙◌, subst, Bool, true, false, Option, none, some, List, [], ◌∷◌,
  All, Bool-cases, inl, inr, arith, Text, text_eq, text_eq_iff, Map, lookup, lookup-insert, member,
  if◌then◌else◌, Result, ok, err, ◌>>=◌,
}
use sirr_mesh.Config.Node.{Node, name_of, Reason, duplicate_directive}
use sirr_mesh.Config.Process.{
  Matcher, Progress, assign, mapped, with_mapper, called_back, with_matcher, directive, directives,
}

-- What holds of a result, if it is no error.
abbrev pub Then : {V : Type 0} → (Progress V → Type 0) → Result Reason (Progress V) → Type 0
Then P (err e) = Unit {0}
Then P (ok p) = P p

pub Then-bind :
    {V : Type 0} (P Q : Progress V → Type 0) (r : Result Reason (Progress V))
    (next : Progress V → Result Reason (Progress V))
    → Then P r
    → ((p : Progress V) → P p → Then Q (next p))
    → Then Q (r >>= next)
Then-bind P Q (err e) next h k = tt
Then-bind P Q (ok p) next h k = k p h

pub Then-const : {V : Type 0} {P : Type 0} (r : Result Reason (Progress V)) → P → Then (λ q. P) r
Then-const (err e) h = tt
Then-const (ok p) h = h

pub Then-weaken :
    {V : Type 0} {P Q : Progress V → Type 0} (f : (p : Progress V) → P p → Q p)
    (r : Result Reason (Progress V))
    → Then P r
    → Then Q r
Then-weaken f (err e) h = tt
Then-weaken f (ok p) h = f p h

-- The first directive of the name.
abbrev pub find_node : Text → List Node → Option Node
find_node k [] = none
find_node k (n ∷ ns) = let rest = find_node k ns in if text_eq (name_of n) k then some n else rest

-- How many directives have the name?
abbrev pub times_in : Text → List Node → ℕ
times_in k [] = 0
times_in k (n ∷ ns) = let rest = times_in k ns in if text_eq (name_of n) k then rest + 1 else rest

-- Each entry is under its name.
abbrev pub Registered : {V : Type 0} → Map (Matcher V) → Type 0
Registered entries = All (λ e. e.1.name ≡ e.0) entries

pub Registered-lookup :
    {V : Type 0} (k : Text) (m : Matcher V) (entries : Map (Matcher V))
    → lookup k entries ≡ some m
    → Registered entries
    → m.name ≡ k
unfolding lookup
Registered-lookup k m [] e r = absurd (ground (arith, e))
Registered-lookup k m ((j, d) ∷ entries) e r = elim (Bool-cases (text_eq j k)) [
  | inl b ↦ subst (λ x. x.name ≡ k) {x = d} {y = m} (cc (rw b at e)) (r.0 ∙ (text_eq_iff j k).0 b)
  | inr b ↦ Registered-lookup k m entries (rw b at e) r.1
]

module _ {V : Type 0} (is_zero : V → Bool) (allow_unknown : Bool) (entries : Map (Matcher V))
    (registered : Registered entries) (k : Text) where
  -- The entry has been matched, with the value in its variable; or not, and its variable is not set.
  abbrev pub MatchedWith : Option V → Progress V → Type 0
  MatchedWith v p = (member k p.matched ≡ true) × (lookup k p.stores ≡ some v)

  abbrev pub Unmatched : Progress V → Type 0
  Unmatched p = (member k p.matched ≡ false) × (lookup k p.stores ≡ none)

  -- Neither the names that are matched nor the variable of the entry are changed.
  abbrev Untouched : Progress V → Progress V → Type 0
  Untouched p q =
      (member k q.matched ≡ member k p.matched) × (lookup k q.stores ≡ lookup k p.stores)

  assign-other :
      (m : Matcher V) (val : Option V) (p : Progress V)
      → text_eq m.name k ≡ false
      → lookup k (assign is_zero m val p).stores ≡ lookup k p.stores
  assign-other m val p h = elim (Bool-cases m.store) [
    | inl b ↦ rw (b, lookup-insert m.name k val p.stores, h) refl
    | inr b ↦ rw b refl
  ]

  mapped-other :
      (m : Matcher V) (n : Node) (p : Progress V) (o : Result Reason (Option V))
      → text_eq m.name k ≡ false
      → text_eq (name_of n) k ≡ false
      → Then (Untouched p) (mapped is_zero m n p o)
  unfolding mapped
  mapped-other m n p (err e) h d = tt
  mapped-other m n p (ok val) h d = elim (Bool-cases m.store) [
    | inl b ↦ rw (b, lookup-insert m.name k val p.stores, h, d) (refl, refl)
    | inr b ↦ rw (b, d) (refl, refl)
  ]

  with_mapper-other :
      (m : Matcher V) (n : Node) (p : Progress V) (o : Option (Node → Result Reason (Option V)))
      → text_eq m.name k ≡ false
      → text_eq (name_of n) k ≡ false
      → Then (Untouched p) (with_mapper is_zero m n p o)
  unfolding with_mapper
  with_mapper-other m n p none h d = (refl, refl)
  with_mapper-other m n p (some f) h d = elim (Bool-cases (member (name_of n) p.matched)) [
    | inl b ↦ rw b tt
    | inr b ↦ rw b (mapped-other m n p (f n) h d)
  ]

  called_back-other :
      (n : Node) (p : Progress V) (o : Option Reason)
      → text_eq (name_of n) k ≡ false
      → Then (Untouched p) (called_back is_zero n p o)
  unfolding called_back
  called_back-other n p none d = rw d (refl, refl)
  called_back-other n p (some e) d = tt

  with_matcher-other :
      (m : Matcher V) (n : Node) (p : Progress V) (o : Option (Node → Option Reason))
      → text_eq m.name k ≡ false
      → text_eq (name_of n) k ≡ false
      → Then (Untouched p) (with_matcher is_zero m n p o)
  unfolding with_matcher
  with_matcher-other m n p none h d = with_mapper-other m n p m.mapper h d
  with_matcher-other m n p (some f) h d = called_back-other n p (f n) d

  directive-other :
      (n : Node) (p : Progress V) (o : Option (Matcher V))
      → lookup (name_of n) entries ≡ o
      → text_eq (name_of n) k ≡ false
      → Then (Untouched p) (directive is_zero allow_unknown n p o)
  unfolding directive
  directive-other n p none e d = elim (Bool-cases allow_unknown) [
    | inl b ↦ rw b (refl, refl)
    | inr b ↦ rw b tt
  ]
  directive-other n p (some m) e d =
      with_matcher-other m n p m.custom_callback
        (subst (λ j. text_eq j k ≡ false)
          (sym (Registered-lookup (name_of n) m entries e registered)) d)
        d

  module _ (m : Matcher V) (f : Node → Result Reason (Option V)) (here : lookup k entries ≡ some m)
      (mapper : m.mapper ≡ some f) (no_callback : m.custom_callback ≡ none)
      (stored : m.store ≡ true) where
    MappedFrom : Node → Progress V → Type 0
    MappedFrom n p = (v : Option V) × (f n ≡ ok v) × MatchedWith v p

    mapped-own :
        (n : Node) (p : Progress V) (o : Result Reason (Option V))
        → f n ≡ o
        → name_of n ≡ k
        → Then (MappedFrom n) (mapped is_zero m n p o)
    unfolding mapped MappedFrom
    mapped-own n p (err e) h d = tt
    mapped-own n p (ok val) h d = (
      val,
      h,
      (
        rw (stored, (text_eq_iff (name_of n) k).1 d) refl,
        rw
            (
              stored,
              lookup-insert m.name k val p.stores,
              (text_eq_iff m.name k).1 (Registered-lookup k m entries here registered),
            )
            refl,
      ),
    )

    with_mapper-own :
        (n : Node) (p : Progress V) (o : Option (Node → Result Reason (Option V)))
        → o ≡ some f
        → name_of n ≡ k
        → Then (MappedFrom n) (with_mapper is_zero m n p o)
    unfolding with_mapper
    with_mapper-own n p none e d = absurd (ground (arith, e))
    with_mapper-own n p (some g) e d = elim (Bool-cases (member (name_of n) p.matched)) [
      | inl b ↦ rw b tt
      | inr b ↦ rw b (mapped-own n p (g n) (ap (λ h. h n) {x = f} {y = g} (cc e)) d)
    ]

    with_matcher-own :
        (n : Node) (p : Progress V) (o : Option (Node → Option Reason))
        → o ≡ none
        → name_of n ≡ k
        → Then (MappedFrom n) (with_matcher is_zero m n p o)
    unfolding with_matcher
    with_matcher-own n p none e d = with_mapper-own n p m.mapper mapper d
    with_matcher-own n p (some g) e d = absurd (ground (arith, e))

    directive-own :
        (n : Node) (p : Progress V) (o : Option (Matcher V))
        → o ≡ some m
        → name_of n ≡ k
        → Then (MappedFrom n) (directive is_zero allow_unknown n p o)
    unfolding directive
    directive-own n p none e d = absurd (ground (arith, e))
    directive-own n p (some m') e d =
        subst (λ x. Then (MappedFrom n) (with_matcher is_zero x n p x.custom_callback)) {x = m}
          {y = m'} (cc e) (with_matcher-own n p m.custom_callback no_callback d)

    -- A second directive of the name is refused.
    with_mapper-again :
        (n : Node) (p : Progress V) (o : Option (Node → Result Reason (Option V)))
        → o ≡ some f
        → member (name_of n) p.matched ≡ true
        → (e : Reason) × (with_mapper is_zero m n p o ≡ err e)
    unfolding with_mapper
    with_mapper-again n p none e d = absurd (ground (arith, e))
    with_mapper-again n p (some g) e d = (duplicate_directive (name_of n), rw d refl)

    with_matcher-again :
        (n : Node) (p : Progress V) (o : Option (Node → Option Reason))
        → o ≡ none
        → member (name_of n) p.matched ≡ true
        → (e : Reason) × (with_matcher is_zero m n p o ≡ err e)
    unfolding with_matcher
    with_matcher-again n p none e d = with_mapper-again n p m.mapper mapper d
    with_matcher-again n p (some g) e d = absurd (ground (arith, e))

    directive-again :
        (n : Node) (p : Progress V) (o : Option (Matcher V))
        → o ≡ some m
        → member (name_of n) p.matched ≡ true
        → (e : Reason) × (directive is_zero allow_unknown n p o ≡ err e)
    unfolding directive
    directive-again n p none e d = absurd (ground (arith, e))
    directive-again n p (some m') e d =
        subst (λ x. (e : Reason) × (with_matcher is_zero x n p x.custom_callback ≡ err e)) {x = m}
          {y = m'} (cc e) (with_matcher-again n p m.custom_callback no_callback d)

    directives-matched :
        (ns : List Node) (p : Progress V) (v : Option V)
        → MatchedWith v p
        → Then (MatchedWith v) (directives is_zero allow_unknown entries ns p)
    unfolding directives
    directives-matched [] p v h = h
    directives-matched (n ∷ ns) p v h = elim (Bool-cases (text_eq (name_of n) k)) [
      | inl b ↦
          let same = (text_eq_iff (name_of n) k).0 b in
          let (e, refused) =
            directive-again n p (lookup (name_of n) entries)
              (ap (λ j. lookup j entries) same ∙ here) (ap (λ j. member j p.matched) same ∙ h.0) in
          subst (λ r. Then (MatchedWith v) (r >>= directives is_zero allow_unknown entries ns))
            (sym refused) tt
      | inr b ↦
          Then-bind (Untouched p) (MatchedWith v)
            (directive is_zero allow_unknown n p (lookup (name_of n) entries))
            (directives is_zero allow_unknown entries ns)
            (directive-other n p (lookup (name_of n) entries) refl b)
            (λ q u. directives-matched ns q v (u.0 ∙ h.0, u.1 ∙ h.1))
    ]

    directives-none :
        (ns : List Node) (p : Progress V)
        → member k p.matched ≡ true
        → Then (λ q. times_in k ns ≡ 0) (directives is_zero allow_unknown entries ns p)
    unfolding directives
    directives-none [] p h = refl
    directives-none (n ∷ ns) p h = elim (Bool-cases (text_eq (name_of n) k)) [
      | inl b ↦
          let same = (text_eq_iff (name_of n) k).0 b in
          let (e, refused) =
            directive-again n p (lookup (name_of n) entries)
              (ap (λ j. lookup j entries) same ∙ here) (ap (λ j. member j p.matched) same ∙ h) in
          subst
            (λ r.
              Then (λ q. times_in k (n ∷ ns) ≡ 0)
                (r >>= directives is_zero allow_unknown entries ns))
            (sym refused) tt
      | inr b ↦ rw b (
          Then-bind (Untouched p) (λ q. times_in k ns ≡ 0)
            (directive is_zero allow_unknown n p (lookup (name_of n) entries))
            (directives is_zero allow_unknown entries ns)
            (directive-other n p (lookup (name_of n) entries) refl b)
            (λ q u. directives-none ns q (u.0 ∙ h)))
    ]

    pub directives-once :
        (ns : List Node) (p : Progress V)
        → Then (λ q. times_in k ns ≤ 1) (directives is_zero allow_unknown entries ns p)
    unfolding directives MappedFrom
    directives-once [] p = omega arith
    directives-once (n ∷ ns) p = elim (Bool-cases (text_eq (name_of n) k)) [
      | inl b ↦ rw b (
          Then-bind (MappedFrom n) (λ q. times_in k ns + 1 ≤ 1)
            (directive is_zero allow_unknown n p (lookup (name_of n) entries))
            (directives is_zero allow_unknown entries ns)
            (directive-own n p (lookup (name_of n) entries)
              (ap (λ j. lookup j entries) ((text_eq_iff (name_of n) k).0 b) ∙ here)
              ((text_eq_iff (name_of n) k).0 b))
            (λ q g.
              Then-weaken (λ q' z. omega (arith, z)) (directives is_zero allow_unknown entries ns q)
                (directives-none ns q g.2.0)))
      | inr b ↦ rw b (
          Then-bind (Untouched p) (λ q. times_in k ns ≤ 1)
            (directive is_zero allow_unknown n p (lookup (name_of n) entries))
            (directives is_zero allow_unknown entries ns)
            (directive-other n p (lookup (name_of n) entries) refl b) (λ q u. directives-once ns q))
    ]

    -- What the directives leave, given the first one of the name.
    abbrev pub Left : Option Node → Progress V → Type 0
    Left none p = Unmatched p
    Left (some n) p = (v : Option V) × (f n ≡ ok v) × MatchedWith v p

    matched-Left :
        (ns : List Node) (n : Node) (p : Progress V)
        → MappedFrom n p
        → Then (Left (some n)) (directives is_zero allow_unknown entries ns p)
    unfolding MappedFrom
    matched-Left ns n p (v, e, h) =
        Then-weaken (λ q g. (v, e, g)) (directives is_zero allow_unknown entries ns p)
          (directives-matched ns p v h)

    pub directives-Left :
        (ns : List Node) (p : Progress V)
        → Unmatched p
        → Then (Left (find_node k ns)) (directives is_zero allow_unknown entries ns p)
    unfolding directives
    directives-Left [] p h = h
    directives-Left (n ∷ ns) p h = elim (Bool-cases (text_eq (name_of n) k)) [
      | inl b ↦ rw b (
          Then-bind (MappedFrom n) (Left (some n))
            (directive is_zero allow_unknown n p (lookup (name_of n) entries))
            (directives is_zero allow_unknown entries ns)
            (directive-own n p (lookup (name_of n) entries)
              (ap (λ j. lookup j entries) ((text_eq_iff (name_of n) k).0 b) ∙ here)
              ((text_eq_iff (name_of n) k).0 b))
            (matched-Left ns n))
      | inr b ↦ rw b (
          Then-bind (Untouched p) (Left (find_node k ns))
            (directive is_zero allow_unknown n p (lookup (name_of n) entries))
            (directives is_zero allow_unknown entries ns)
            (directive-other n p (lookup (name_of n) entries) refl b)
            (λ q u. directives-Left ns q (u.0 ∙ h.0, u.1 ∙ h.1)))
    ]
