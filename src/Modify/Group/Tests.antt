-- ===== src/Modify/Group/Tests.antt =====
-- A group of an alias and a modifier that cannot be opened.
use sirr_mesh.Base.{◌≡◌, refl, none, some, [], ◌∷◌, ◌++◌, text, ok, err}
use sirr_mesh.Exterrors.{plain}
use sirr_mesh.Modify.Group.{Modifier, mod_state_for_msg, group_rcpt}

abbrev twice : Modifier
twice = record {
  init = none;
  rewrite_sender = λ from. ok (text "x" ++ from);
  rewrite_rcpt = λ to. ok (to ∷ (text "x" ++ to) ∷ []);
  rewrite_body = λ h. ok (text "X" ∷ h);
  close = none;
}

abbrev broken : Modifier
broken = record twice { init = some (plain (text "down")); rewrite_rcpt = λ to. err (plain to) }

-- Two that double give four.
four :
    group_rcpt (twice ∷ twice ∷ []) (text "a")
    ≡ ok (text "a" ∷ text "xa" ∷ text "xa" ∷ text "xxa" ∷ [])
unfolding group_rcpt
four = refl

closed_again : (mod_state_for_msg (twice ∷ broken ∷ twice ∷ [])).closed ≡ twice ∷ []
unfolding mod_state_for_msg
closed_again = refl
