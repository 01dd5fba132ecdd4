-- ===== src/Pipeline/Recipients/Offered.antt =====
-- Whom a recipient is offered to.
use sirr_mesh.Base.{
  ℕ, ◌≡◌, refl, sym, ap, ◌∙◌, inl, inr, Bool, true, false, Option, none, some, List, [], ◌∷◌, ◌++◌,
  append_assoc, append-nil, Text, text_eq, Result, ok, err, arith, Bool-cases,
}
use sirr_mesh.Exterrors.{Error}
use sirr_mesh.Modify.Group.{rewrite_each, group_rcpt}
use sirr_mesh.Checks.States.{Runner}
use sirr_mesh.Pipeline.Config.{SourceBlock, MsgPipeline, World, Delivering}
use sirr_mesh.Pipeline.Route.{rcpt_block_for_addr}
use sirr_mesh.Pipeline.Steps.{M, after, run_check, ◌>>=◌, ◌>>◌}
use sirr_mesh.Pipeline.Recipients.{
  wrapped, wrapping, open_block, get_rcpt_modifiers, start_target, get_delivery, accepted, offer,
  target_wrap, offer_targets, record_original, offer_rewritten,
}

-- Each target with the address, and each address with the targets.
abbrev pub each_target : List ℕ → Text → List (ℕ × Text)
each_target [] to = []
each_target (t ∷ ts) to = (t, to) ∷ each_target ts to

abbrev pub fan_out : List ℕ → List Text → List (ℕ × Text)
fan_out ts [] = []
fan_out ts (to ∷ tos) = each_target ts to ++ fan_out ts tos

abbrev pub then_plan : {A B : Type 0} → Result Error A → (A → Result Error B) → Result Error B
then_plan (ok a) f = f a
then_plan (err e) f = err e

module _ (w : World) (s : SourceBlock) where
  -- Which targets get which addresses, by the rules and the modifiers of the blocks alone.
  abbrev pub plan_each : List Text → Result Error (List (ℕ × Text))
  plan_each [] = ok []
  plan_each (to ∷ tos) = then_plan (rcpt_block_for_addr w.packages s to) (λ b.
      then_plan (group_rcpt (w.block b).rcpt_modifiers to) (λ rewritten.
        then_plan (plan_each tos) (λ more. ok (fan_out (w.block b).targets rewritten ++ more))))

  abbrev pub plan : MsgPipeline → Text → Result Error (List (ℕ × Text))
  plan p to =
      then_plan (group_rcpt p.global_modifiers to)
        (λ tos. then_plan (rewrite_each (group_rcpt s.source_modifiers) tos) plan_each)

-- The recipients offered are these more, and the source block is the same.
abbrev pub Adds : List (ℕ × Text) → Delivering → Delivering → Type 0
Adds l d e = (e.offered ≡ d.offered ++ l) × (e.source_block ≡ d.source_block)

pub Adds-nil : (d : Delivering) → Adds [] d d
Adds-nil d = (sym (append-nil d.offered), refl)

pub Adds-trans :
    (l k : List (ℕ × Text)) (d e f : Delivering) → Adds l d e → Adds k e f → Adds (l ++ k) d f
Adds-trans l k d e f a b =
    (b.0 ∙ ap (λ (o : List (ℕ × Text)). o ++ k) a.0 ∙ append_assoc d.offered l k, b.1 ∙ a.1)

-- A command that is successful adds these recipients.
abbrev pub Offers : {A : Type 0} → List (ℕ × Text) → M A → Type 0
Offers {A} l m = (d : Delivering) (a : A) → (m d).1 ≡ ok a → Adds l d (m d).0

after-Adds :
    {A B : Type 0} (l k : List (ℕ × Text)) (d : Delivering) (x : Delivering × Result Error A)
    (f : A → M B) (b : B)
    → (after x f).1 ≡ ok b
    → ((a : A) → x.1 ≡ ok a → Adds l d x.0)
    → ((a : A) → (f a x.0).1 ≡ ok b → Adds k x.0 (f a x.0).0)
    → Adds (l ++ k) d (after x f).0
after-Adds l k d (e, ok a) f b h p q = Adds-trans l k d e (f a e).0 (p a refl) (q a h)
after-Adds l k d (e, err r) f b h p q = absurd (ground (arith, h))

then-Offers :
    {A B : Type 0} (l k : List (ℕ × Text)) (m : M A) (f : A → M B)
    → Offers l m
    → ((a : A) → Offers k (f a))
    → Offers (l ++ k) (m >>= f)
then-Offers l k m f p q d b h =
    after-Adds l k d (m d) f b h (λ a e. p d a e) (λ a e. q a (m d).0 b e)

wrapped-Adds :
    {A : Type 0} (l : List (ℕ × Text)) (d : Delivering) (g : Error → Error)
    (x : Delivering × Result Error A) (a : A)
    → (wrapped g x).1 ≡ ok a
    → ((b : A) → x.1 ≡ ok b → Adds l d x.0)
    → Adds l d (wrapped g x).0
wrapped-Adds l d g (e, ok b) a h p = p b refl
wrapped-Adds l d g (e, err r) a h p = absurd (ground (arith, h))

pub wrapping-Offers :
    {A : Type 0} (l : List (ℕ × Text)) (g : Error → Error) (m : M A)
    → Offers l m
    → Offers l (wrapping g m)
wrapping-Offers l g m p d a h = wrapped-Adds l d g (m d) a h (p d)

pub run_check-Offers : (call : Runner → Runner × Option Error) → Offers [] (run_check call)
run_check-Offers call d a h = Adds-nil d

open_block-Offers : (b : ℕ) (seen : Bool) (e : Option Error) → Offers [] (open_block b seen e)
unfolding open_block
open_block-Offers b true e d a h = Adds-nil d
open_block-Offers b false none d a h = Adds-nil d
open_block-Offers b false (some e) d a h = absurd (ground (arith, h))

pub get_rcpt_modifiers-Offers : (w : World) (b : ℕ) → Offers [] (get_rcpt_modifiers w b)
unfolding get_rcpt_modifiers
get_rcpt_modifiers-Offers w b d a h = open_block-Offers b _ _ d a h

start_target-Offers : (t : ℕ) (seen : Bool) (e : Option Error) → Offers [] (start_target t seen e)
unfolding start_target
start_target-Offers t true e d a h = Adds-nil d
start_target-Offers t false none d a h = Adds-nil d
start_target-Offers t false (some e) d a h = absurd (ground (arith, h))

get_delivery-Offers : (w : World) (t : ℕ) → Offers [] (get_delivery w t)
unfolding get_delivery
get_delivery-Offers w t d a h = start_target-Offers t _ _ d a h

accepted-Offers :
    (t : ℕ) (orig to : Text) (e : Option Error) → Offers ((t, to) ∷ []) (accepted t orig to e)
unfolding accepted
accepted-Offers t orig to none d a h = (refl, refl)
accepted-Offers t orig to (some e) d a h = absurd (ground (arith, h))

offer-Offers : (w : World) (t : ℕ) (orig to : Text) → Offers ((t, to) ∷ []) (offer w t orig to)
unfolding offer
offer-Offers w t orig to d a h = accepted-Offers t orig to _ d a h

offer_targets-Offers :
    (w : World) (orig to : Text) (ts : List ℕ)
    → Offers (each_target ts to) (offer_targets w orig to ts)
unfolding offer_targets
offer_targets-Offers w orig to [] = λ d _ _. Adds-nil d
offer_targets-Offers w orig to (t ∷ ts) =
    let g = target_wrap w t to in
    let begin = wrapping g (get_delivery w t) in
    let add = wrapping g (offer w t orig to) in
    then-Offers [] (each_target (t ∷ ts) to) begin (λ _. add >> offer_targets w orig to ts)
      (wrapping-Offers [] g (get_delivery w t) (get_delivery-Offers w t))
      (λ _.
        then-Offers ((t, to) ∷ []) (each_target ts to) add (λ _. offer_targets w orig to ts)
          (wrapping-Offers ((t, to) ∷ []) g (offer w t orig to) (offer-Offers w t orig to))
          (λ _. offer_targets-Offers w orig to ts))

record_original-Offers : (orig to : Text) → Offers [] (record_original orig to)
unfolding record_original
record_original-Offers orig to d a h = elim (Bool-cases (text_eq orig to)) [
  | inl e ↦ rw e (Adds-nil d)
  | inr e ↦ rw e (Adds-nil d)
]

pub offer_rewritten-Offers :
    (w : World) (orig : Text) (ts : List ℕ) (tos : List Text)
    → Offers (fan_out ts tos) (offer_rewritten w orig ts tos)
unfolding offer_rewritten
offer_rewritten-Offers w orig ts [] = λ d _ _. Adds-nil d
offer_rewritten-Offers w orig ts (to ∷ tos) =
    let rest = offer_rewritten w orig ts tos in
    then-Offers [] (fan_out ts (to ∷ tos)) (record_original orig to)
      (λ _. offer_targets w orig to ts >> rest) (record_original-Offers orig to)
      (λ _.
        then-Offers (each_target ts to) (fan_out ts tos) (offer_targets w orig to ts) (λ _. rest)
          (offer_targets-Offers w orig to ts) (λ _. offer_rewritten-Offers w orig ts tos))
