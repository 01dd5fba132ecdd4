-- ===== src/Pipeline/Route/Rules.antt =====
-- Which addresses are routed alike.
use sirr_mesh.Base.{
  ℕ, ◌≡◌, refl, ap, ◌∙◌, Bool, true, false, arith, Option, none, some, List, [], ◌∷◌, ◌++◌, Text,
  Map, err,
}
use sirr_mesh.Exterrors.{Error}
use sirr_mesh.Address.Errors.{Err}
use sirr_mesh.Address.Norm.{Packages, for_lookup, equal}
use sirr_mesh.Address.Norm.Lookup.{equal_iff}
use sirr_mesh.Pipeline.Config.{Lookup, SourceBlock}
use sirr_mesh.Pipeline.Route.{
  or_try, first_match, rcpt_block_for_addr, with_key, by_rules, bad_rcpt, split_rcpt,
}

same_lookup : (a b : Text × Option Err) → a.1 ≡ none → b.1 ≡ none → a.0 ≡ b.0 → a ≡ b
same_lookup (a, e) (b, f) ha hb h = rw (h, ha, hb) refl

-- A table that fails is not there.
first_match-Skips :
    {B : Type 0} (before : List (Lookup × B)) (t : Lookup) (block : B) (rest : List (Lookup × B))
    (key : Text) (e : Error)
    → t key ≡ err e
    → first_match (before ++ ((t, block) ∷ rest)) key ≡ first_match (before ++ rest) key
unfolding first_match or_try
first_match-Skips [] t block rest key e failed = rw failed refl
first_match-Skips ((u, other) ∷ before) t block rest key e failed =
    ap (or_try (u key) other) (first_match-Skips before t block rest key e failed)

with_key-Skips :
    {B : Type 0} (before rest : List (Lookup × B)) (t : Lookup) (block d : B) (rules : Map B)
    (unreadable bad e : Error) (null : Bool) (x : Text × Option Err)
    → x.1 ≡ none
    → t x.0 ≡ err e
    → with_key (before ++ ((t, block) ∷ rest)) rules d unreadable bad null x
      ≡ with_key (before ++ rest) rules d unreadable bad null x
unfolding with_key
with_key-Skips before rest t block d rules unreadable bad e null (key, some r) fine failed =
    absurd (ground (arith, fine))
with_key-Skips before rest t block d rules unreadable bad e null (key, none) fine failed =
    ap (by_rules rules d bad null key) (first_match-Skips before t block rest key e failed)

-- Two recipients whose addresses `address.Equal` takes for the same, and that can both be normalized,
-- are routed to the same block; and a table of `destination_in` whose lookup fails does not change
-- where a recipient is routed.
pub equal-rcpt_block_for_addr :
    (p : Packages) (s : SourceBlock) (a b : Text) (before rest : List (Lookup × ℕ)) (t : Lookup)
    (block : ℕ) (e : Error)
    → equal p a b ≡ true
    → (for_lookup p a).1 ≡ none
    → (for_lookup p b).1 ≡ none
    → t (for_lookup p a).0 ≡ err e
    → rcpt_block_for_addr p (record s { rcpt_in = before ++ ((t, block) ∷ rest) }) a
      ≡ rcpt_block_for_addr p (record s { rcpt_in = before ++ rest }) b
unfolding rcpt_block_for_addr
equal-rcpt_block_for_addr p s a b before rest t block e same ha hb failed =
    with_key-Skips before rest t block s.default_rcpt s.per_rcpt bad_rcpt split_rcpt e false
      (for_lookup p a) ha failed
    ∙ ap (with_key (before ++ rest) s.per_rcpt s.default_rcpt bad_rcpt split_rcpt false)
        (same_lookup (for_lookup p a) (for_lookup p b) ha hb ((equal_iff p a b).0 same))
