-- ===== src/Exterrors/Chain.antt =====
-- `Fields` over a chain of errors: the outermost value of a key wins.
use sirr_mesh.Base.{
  ◌≡◌, refl, ◌∙◌, inl, inr, false, Option, none, some, [], ◌∷◌, arith, Bool-cases, Text, text,
  text_eq, text_eq_iff, Map, lookup, insert, lookup-insert,
}
use sirr_mesh.Exterrors.{
  Value, nil, Error, plain, foreign, go_smtp, wrapped, temporary_err, fields_wrap, smtp_leaf,
  smtp_error, is_set, merge, smtp_fields, put_text, put_reason, str, Smtp, fields_from, fields_of,
  message_of,
}

-- The keys of a layer that a Go map can hold: each once.
abbrev Fresh : Text → Map Value → Type 0
Fresh k [] = Unit
Fresh k ((j, v) ∷ m) = (text_eq j k ≡ false) × Fresh k m

abbrev pub KeysDiffer : Map Value → Type 0
KeysDiffer [] = Unit
KeysDiffer ((k, v) ∷ m) = Fresh k m × KeysDiffer m

-- The value of a key, if it is not nil.
abbrev pub value? : Option Value → Option Value
value? none = none
value? (some nil) = none
value? (some v) = some v

abbrev pub or_else : Option Value → Option Value → Option Value
or_else (some v) o = some v
or_else none o = o

lookup-Fresh : (k : Text) (m : Map Value) → Fresh k m → lookup k m ≡ none
unfolding lookup
lookup-Fresh k [] f = refl
lookup-Fresh k ((j, v) ∷ m) f = rw (f.0) (lookup-Fresh k m f.1)

or_else-none : (o : Option Value) → or_else o none ≡ o
or_else-none none = refl
or_else-none (some v) = refl

lookup-merge :
    (k : Text) (layer fields : Map Value)
    → KeysDiffer layer
    → value? (lookup k (merge fields layer))
      ≡ or_else (value? (lookup k fields)) (value? (lookup k layer))
unfolding merge
lookup-merge k [] fields d = rw or_else-none
lookup-merge k ((j, v) ∷ layer) fields d = elim (Bool-cases (is_set (lookup j fields))) [
  | inl set ↦ rw set (lookup-merge k layer fields d.1 ∙ ground (arith, text_eq_iff j k, set))
  | inr unset ↦ rw unset (
      lookup-merge k layer (insert j v fields) d.1
      ∙ ground
          (arith, text_eq_iff j k, unset, lookup-insert j k v fields, lookup-Fresh j layer d.0))
]

-- Insertion keeps the keys apart.
Fresh-insert :
    (k j : Text) (v : Value) (m : Map Value)
    → text_eq j k ≡ false
    → Fresh k m
    → Fresh k (insert j v m)
unfolding insert
Fresh-insert k j v [] h f = (h, f)
Fresh-insert k j v ((i, w) ∷ m) h f = elim (Bool-cases (text_eq i j)) [
  | inl e ↦ rw e (h, f.1)
  | inr e ↦ rw e (f.0, Fresh-insert k j v m h f.1)
]

pub KeysDiffer-insert :
    (j : Text) (v : Value) (m : Map Value) → KeysDiffer m → KeysDiffer (insert j v m)
unfolding insert
KeysDiffer-insert j v [] d = (tt, tt)
KeysDiffer-insert j v ((i, w) ∷ m) d = elim (Bool-cases (text_eq i j)) [
  | inl e ↦ rw e (rw ((text_eq_iff i j).0 e) at d.0, d.1)
  | inr e ↦ rw e (
    Fresh-insert i j v m (ground (arith, text_eq_iff i j, text_eq_iff j i)) d.0,
    KeysDiffer-insert j v m d.1,
  )
]

put_text-KeysDiffer : (k s : Text) (m : Map Value) → KeysDiffer m → KeysDiffer (put_text k s m)
unfolding put_text
put_text-KeysDiffer k [] m d = d
put_text-KeysDiffer k (c ∷ cs) m d = KeysDiffer-insert k (str (c ∷ cs)) m d

put_reason-KeysDiffer :
    (r : Text) (inner : Option Text) (m : Map Value)
    → KeysDiffer m
    → KeysDiffer (put_reason r inner m)
unfolding put_reason
put_reason-KeysDiffer [] none m d = d
put_reason-KeysDiffer [] (some i) m d = KeysDiffer-insert (text "reason") (str i) m d
put_reason-KeysDiffer (c ∷ cs) inner m d = KeysDiffer-insert (text "reason") (str (c ∷ cs)) m d

smtp_fields-KeysDiffer :
    (se : Smtp) (inner : Option Text) → KeysDiffer se.misc → KeysDiffer (smtp_fields se inner)
smtp_fields-KeysDiffer se inner d =
    unfold smtp_fields in
    put_reason-KeysDiffer se.reason inner _ (
      put_text-KeysDiffer (text "target") se.target_name _ (
        put_text-KeysDiffer (text "check") se.check_name _
          (KeysDiffer-insert _ _ _ (KeysDiffer-insert _ _ _ (KeysDiffer-insert _ _ _ d)))))

-- The maps that an error of the chain brings are Go maps.
abbrev pub IsGoError : Error → Type 0
IsGoError (wrapped m err) = IsGoError err
IsGoError (temporary_err err t) = IsGoError err
IsGoError (fields_wrap err f) = KeysDiffer f × IsGoError err
IsGoError (smtp_leaf se) = KeysDiffer se.misc
IsGoError (smtp_error se err) = KeysDiffer se.misc × IsGoError err
IsGoError _ = Unit

-- The value of a key in the outermost error of the chain that has one which is not nil.
abbrev pub field? : Text → Error → Option Value
field? k (wrapped m err) = field? k err
field? k (temporary_err err t) = field? k err
field? k (fields_wrap err f) = or_else (value? (lookup k f)) (field? k err)
field? k (smtp_leaf se) = value? (lookup k (smtp_fields se none))
field? k (smtp_error se err) =
    or_else (value? (lookup k (smtp_fields se (some (message_of err))))) (field? k err)
field? k _ = none

or_else_assoc : (a b c : Option Value) → or_else (or_else a b) c ≡ or_else a (or_else b c)
or_else_assoc none b c = refl
or_else_assoc (some v) b c = refl

lookup-fields_from :
    (k : Text) (err : Error) (fields : Map Value)
    → IsGoError err
    → value? (lookup k (fields_from fields err)) ≡ or_else (value? (lookup k fields)) (field? k err)
unfolding fields_from
lookup-fields_from k (plain m) fields g = rw or_else-none
lookup-fields_from k (foreign m t) fields g = rw or_else-none
lookup-fields_from k (go_smtp c e m t) fields g = rw or_else-none
lookup-fields_from k (wrapped m err) fields g = lookup-fields_from k err fields g
lookup-fields_from k (temporary_err err t) fields g = lookup-fields_from k err fields g
lookup-fields_from k (fields_wrap err f) fields g =
    lookup-fields_from k err (merge fields f) g.1
    ∙ rw (lookup-merge k f fields g.0)
        (or_else_assoc (value? (lookup k fields)) (value? (lookup k f)) (field? k err))
lookup-fields_from k (smtp_leaf se) fields g =
    lookup-merge k (smtp_fields se none) fields (smtp_fields-KeysDiffer se none g)
lookup-fields_from k (smtp_error se err) fields g =
    let m : Map Value = smtp_fields se (some (message_of err)) in
    lookup-fields_from k err (merge fields m) g.1
    ∙ rw (lookup-merge k m fields (smtp_fields-KeysDiffer se (some (message_of err)) g.0))
        (or_else_assoc (value? (lookup k fields)) (value? (lookup k m)) (field? k err))

-- `Fields` has, for each key, the value of the outermost error of the chain that sets it.
pub lookup-fields_of :
    (k : Text) (err : Error) → IsGoError err → value? (lookup k (fields_of err)) ≡ field? k err
unfolding fields_of
lookup-fields_of k err g = unfold lookup in lookup-fields_from k err [] g
