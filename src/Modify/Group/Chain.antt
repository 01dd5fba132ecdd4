-- ===== src/Modify/Group/Chain.antt =====
-- A group made of two groups, and the states of a group that cannot be opened.
use sirr_mesh.Base.{
  ◌≡◌, refl, sym, subst, ◌∙◌, inl, inr, ◌⊎◌, ◌≢◌, Option, none, some, List, [], ◌∷◌, ◌++◌,
  append_assoc, append-nil, Text, Result, ok, err, ◌>>=◌, arith,
}
use sirr_mesh.Exterrors.{Error}
use sirr_mesh.Modify.Group.{
  Modifier, Opened, open_from, open_next, mod_state_for_msg, rewrite_each, group_rcpts, group_rcpt,
  group_sender, group_body,
}

bind_assoc :
    {A B C : Type 0} (m : Result Error A) (f : A → Result Error B) (g : B → Result Error C)
    → ((m >>= f) >>= g) ≡ (m >>= λ a. f a >>= g)
bind_assoc (ok a) f g = refl
bind_assoc (err e) f g = refl

bind_cong :
    {A B : Type 0} (m : Result Error A) {f g : A → Result Error B}
    → ((a : A) → f a ≡ g a)
    → (m >>= f) ≡ (m >>= g)
bind_cong (ok a) h = h a
bind_cong (err e) h = refl

group_rcpts-append :
    (ms ns : List Modifier) (rcpts : List Text)
    → group_rcpts (ms ++ ns) rcpts ≡ (group_rcpts ms rcpts >>= group_rcpts ns)
unfolding group_rcpts
group_rcpts-append [] ns rcpts = refl
group_rcpts-append (m ∷ ms) ns rcpts =
    bind_cong (rewrite_each m.rewrite_rcpt rcpts) (λ a. group_rcpts-append ms ns a)
    ∙ sym (bind_assoc (rewrite_each m.rewrite_rcpt rcpts) (group_rcpts ms) (group_rcpts ns))

group_sender-append :
    (ms ns : List Modifier) (from : Text)
    → group_sender (ms ++ ns) from ≡ (group_sender ms from >>= group_sender ns)
unfolding group_sender
group_sender-append [] ns from = refl
group_sender-append (m ∷ ms) ns from =
    bind_cong (m.rewrite_sender from) (λ a. group_sender-append ms ns a)
    ∙ sym (bind_assoc (m.rewrite_sender from) (group_sender ms) (group_sender ns))

group_body-append :
    (ms ns : List Modifier) (header : List Text)
    → group_body (ms ++ ns) header ≡ (group_body ms header >>= group_body ns)
unfolding group_body
group_body-append [] ns header = refl
group_body-append (m ∷ ms) ns header =
    bind_cong (m.rewrite_body header) (λ a. group_body-append ms ns a)
    ∙ sym (bind_assoc (m.rewrite_body header) (group_body ms) (group_body ns))

-- A group can be cut anywhere: the sender, the recipients and the header pass through the first part
-- and what it makes of them through the second, and an error of either is the error of the group.
group-append :
    (ms ns : List Modifier) (from rcpt : Text) (header : List Text)
    → (group_sender (ms ++ ns) from ≡ (group_sender ms from >>= group_sender ns))
      × (group_rcpt (ms ++ ns) rcpt ≡ (group_rcpt ms rcpt >>= group_rcpts ns))
      × (group_body (ms ++ ns) header ≡ (group_body ms header >>= group_body ns))
unfolding group_rcpt
group-append ms ns from rcpt header = (
  group_sender-append ms ns from,
  group_rcpts-append ms ns (rcpt ∷ []),
  group_body-append ms ns header,
)

-- Either all modifiers are open, or those in front of the first one that fails were opened and are
-- closed again.
abbrev pub Opens : List Modifier → Opened → Type 0
Opens mods o =
    ((o.failure ≡ none) × (o.states ≡ mods) × (o.closed ≡ []))
    ⊎ ((bad : Modifier) × (rest : List Modifier) × (mods ≡ o.closed ++ (bad ∷ rest))
        × (o.failure ≡ bad.init)
        × (bad.init ≢ none)
        × (o.states ≡ []))

open_next-Opens :
    (states mods : List Modifier) (m : Modifier) (o : Option Error) (next : List Modifier → Opened)
    → m.init ≡ o
    → Opens (states ++ (m ∷ mods)) (next (states ++ (m ∷ [])))
    → Opens (states ++ (m ∷ mods)) (open_next states m o next)
unfolding open_next
open_next-Opens states mods m none next e h = h
open_next-Opens states mods m (some x) next e h =
    inr (m, mods, refl, sym e, λ n. absurd (ground (arith, e, n)), refl)

open_from-Opens : (states mods : List Modifier) → Opens (states ++ mods) (open_from states mods)
unfolding open_from
open_from-Opens states [] = inl (refl, sym (append-nil states), refl)
open_from-Opens states (m ∷ mods) =
    open_next-Opens states mods m m.init (λ more. open_from more mods) refl
      (subst (λ l. Opens l (open_from (states ++ (m ∷ [])) mods))
        (append_assoc states (m ∷ []) mods) (open_from-Opens (states ++ (m ∷ [])) mods))

-- The group is opened as a whole, or what it has opened is closed and the error is that of the first
-- modifier that fails.
mod_state_for_msg-Opens : (mods : List Modifier) → Opens mods (mod_state_for_msg mods)
unfolding mod_state_for_msg
mod_state_for_msg-Opens mods = open_from-Opens [] mods
