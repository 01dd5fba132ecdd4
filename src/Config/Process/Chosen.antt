-- ===== src/Config/Process/Chosen.antt =====
-- `ProcessWith` gives each variable the value that the documentation of `Custom` says.
use sirr_mesh.Base.{
  ◌≤◌, ◌≡◌, refl, sym, ap, ◌∙◌, subst, Bool, true, Option, none, some, Text, text_eq, text_eq_iff,
  Map, lookup, Result, ok,
}
use sirr_mesh.Config.Node.{Node, to_list, children_of, Reason}
use sirr_mesh.Config.Process.{Matcher, Progress, no_progress, missings, directives, process_with}
use sirr_mesh.Config.Process.Matched.{
  Then, Then-bind, Then-const, Then-weaken, find_node, times_in, Registered, Registered-lookup,
  Left, directives-once, directives-Left,
}
use sirr_mesh.Config.Process.Missing.{
  some_value, chosen_missing, chosen, UniqueNames, missings-own, IsMatched, IsUnmatched,
  missing-IsMatched, missing-IsUnmatched,
}

module _ {V : Type 0} (is_zero : V → Bool) (allow_unknown : Bool) (entries : Map (Matcher V))
    (globals : Map (Option V)) where
  second_loop :
      (k : Text) (m : Matcher V) (f : Node → Result Reason (Option V))
      (unique : UniqueNames entries) (registered : Registered entries)
      (here : lookup k entries ≡ some m) (mapper : m.mapper ≡ some f)
      (no_callback : m.custom_callback ≡ none) (stored : m.store ≡ true)
      (named : text_eq m.name k ≡ true) (o : Option Node) (q : Progress V)
      → Left is_zero allow_unknown entries registered k m f here mapper no_callback stored o q
      → Then
          (λ q'. chosen m f (lookup k globals) o ≡ ok (lookup k q'.stores))
          (missings is_zero globals entries q)
  unfolding chosen some_value
  second_loop k m f unique registered here mapper no_callback stored named none q h =
      missings-own is_zero globals k m stored named f mapper
        (IsUnmatched is_zero globals k m stored named)
        (λ b s. chosen_missing m (lookup k globals) ≡ ok s)
        (λ p i. missing-IsUnmatched is_zero globals k m stored named f p mapper i) entries q here
        unique registered h
  second_loop k m f unique registered here mapper no_callback stored named (some n) q (v, e, h) =
      Then-weaken (λ q' g. ap some_value e ∙ ap ok (sym g.1)) (missings is_zero globals entries q)
        (missings-own is_zero globals k m stored named f mapper
          (IsMatched is_zero globals k m stored named v)
          (IsMatched is_zero globals k m stored named v)
          (missing-IsMatched is_zero globals k m stored named v) entries q here unique registered h)

  -- If `ProcessWith` succeeds, on entries with different names that stand under their names: the variable of
  -- each entry has the value of its directive, which is the only one of that name; without a
  -- directive, the global value if the entry inherits it and there is one; else its default, if the
  -- entry is not required and has one; and else it is not set, and the entry is not required.
  pub process_with-chosen :
      (block : Node) (p : Progress V) (k : Text) (m : Matcher V)
      (f : Node → Result Reason (Option V))
      → process_with is_zero allow_unknown entries globals block ≡ ok p
      → UniqueNames entries
      → Registered entries
      → lookup k entries ≡ some m
      → m.mapper ≡ some f
      → m.custom_callback ≡ none
      → m.store ≡ true
      → (chosen m f (lookup k globals) (find_node k (to_list (children_of block)))
          ≡ ok (lookup k p.stores))
        × (times_in k (to_list (children_of block)) ≤ 1)
  unfolding process_with
  process_with-chosen block p k m f run unique registered here mapper no_callback stored =
      let nodes = to_list (children_of block) in
      let named = (text_eq_iff m.name k).1 (Registered-lookup k m entries here registered) in
      (
        subst
            (Then (λ q. chosen m f (lookup k globals) (find_node k nodes) ≡ ok (lookup k q.stores)))
            run
            (Then-bind
              (Left is_zero allow_unknown entries registered k m f here mapper no_callback stored
                (find_node k nodes))
              (λ q. chosen m f (lookup k globals) (find_node k nodes) ≡ ok (lookup k q.stores))
              (directives is_zero allow_unknown entries nodes no_progress)
              (missings is_zero globals entries)
              (directives-Left is_zero allow_unknown entries registered k m f here mapper
                no_callback stored nodes no_progress (refl, refl))
              (second_loop k m f unique registered here mapper no_callback stored named
                (find_node k nodes))),
        subst (Then (λ q. times_in k nodes ≤ 1)) run (
            Then-bind (λ q. times_in k nodes ≤ 1) (λ q. times_in k nodes ≤ 1)
              (directives is_zero allow_unknown entries nodes no_progress)
              (missings is_zero globals entries)
              (directives-once is_zero allow_unknown entries registered k m f here mapper
                no_callback stored nodes no_progress)
              (λ q one. Then-const (missings is_zero globals entries q) one)),
      )
