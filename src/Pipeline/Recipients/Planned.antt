-- ===== src/Pipeline/Recipients/Planned.antt =====
-- An accepted recipient is offered as planned.
use sirr_mesh.Base.{
  ℕ, ◌≡◌, refl, subst, ap, ◌∙◌, Option, none, some, List, [], ◌∷◌, ◌++◌, Text, Result, ok, err,
  arith,
}
use sirr_mesh.Exterrors.{Error}
use sirr_mesh.Modify.Group.{rewrite_each, group_rcpt}
use sirr_mesh.Checks.States.{check_rcpt_of}
use sirr_mesh.Pipeline.Config.{SourceBlock, MsgPipeline, World, Delivering}
use sirr_mesh.Pipeline.Route.{rcpt_block_for_addr}
use sirr_mesh.Pipeline.Steps.{M, after, lift, fail_with, run_check, pure, ◌>>=◌, ◌>>◌}
use sirr_mesh.Pipeline.Recipients.{
  wrap, wrapped, wrapping, get_rcpt_modifiers, offer_rewritten, routed, block_check, block_rewrite,
  deliver_each, source_check, source_rewrite, add_rcpt,
}
use sirr_mesh.Pipeline.Recipients.Offered.{
  fan_out, then_plan, plan_each, plan, Adds, Adds-nil, Adds-trans, Offers, wrapping-Offers,
  get_rcpt_modifiers-Offers, offer_rewritten-Offers,
}

module _ (s : SourceBlock) where
  -- A command that is successful has the value of this result, and offers nobody.
  abbrev pub Does : {A : Type 0} → Result Error A → M A → Type 0
  Does {A} q m =
      (d : Delivering)
      → d.source_block ≡ s
      → (a : A) → (m d).1 ≡ ok a
      → (q ≡ ok a) × Adds [] d (m d).0

  -- A command that is successful offers what the plan says.
  abbrev pub Follows : {A : Type 0} → Result Error (List (ℕ × Text)) → M A → Type 0
  Follows {A} q m =
      (d : Delivering)
      → d.source_block ≡ s
      → (a : A) → (m d).1 ≡ ok a
      → (l : List (ℕ × Text)) × (q ≡ ok l) × Adds l d (m d).0

Follows-after :
    {A B : Type 0} (part : List (ℕ × Text)) (q : Result Error (List (ℕ × Text))) (s : SourceBlock)
    (d : Delivering) (x : Delivering × Result Error A) (f : A → M B) (b : B)
    → (after x f).1 ≡ ok b
    → d.source_block ≡ s
    → ((a : A) → x.1 ≡ ok a → Adds part d x.0 × Follows s q (f a))
    → (l : List (ℕ × Text)) × (q ≡ ok l) × Adds (part ++ l) d (after x f).0
Follows-after part q s d (e, err r) f b h same p = absurd (ground (arith, h))
Follows-after part q s d (e, ok a) f b h same p =
    let (adds, follows) = p a refl in
    let (l, planned, more) = follows e (adds.1 ∙ same) b h in
    (l, planned, Adds-trans part l d e (f a e).0 adds more)

-- The value of the first command is in the plan of the second.
Does-then :
    {A B : Type 0} (s : SourceBlock) (q : Result Error A)
    (plan_of : A → Result Error (List (ℕ × Text))) (m : M A) (f : A → M B)
    → Does s q m
    → ((a : A) → Follows s (plan_of a) (f a))
    → Follows s (then_plan q plan_of) (m >>= f)
Does-then s q plan_of m f p k d same b h =
    Follows-after [] (then_plan q plan_of) s d (m d) f b h same
      (λ a e. let (value, adds) = p d same a e in (adds, rw value (k a)))

-- The first command is not in the plan.
Offers-then :
    {A B : Type 0} (s : SourceBlock) (q : Result Error (List (ℕ × Text))) (m : M A) (f : A → M B)
    → Offers [] m
    → ((a : A) → Follows s q (f a))
    → Follows s q (m >>= f)
Offers-then s q m f p k d same b h = Follows-after [] q s d (m d) f b h same (λ a e. (p d a e, k a))

-- The first command offers a part of the plan.
Part-then :
    {A B : Type 0} (s : SourceBlock) (part : List (ℕ × Text)) (q : Result Error (List (ℕ × Text)))
    (m : M A) (f : A → M B)
    → Offers part m
    → ((a : A) → Follows s q (f a))
    → Follows s (then_plan q (λ more. ok (part ++ more))) (m >>= f)
Part-then s part q m f p k d same b h =
    let (l, planned, adds) = Follows-after part q s d (m d) f b h same (λ a e. (p d a e, k a)) in
    (part ++ l, rw planned refl, adds)

wrapped-ok :
    {A : Type 0} (g : Error → Error) (x : Delivering × Result Error A) {a : A}
    → (wrapped g x).1 ≡ ok a
    → (x.1 ≡ ok a) × ((wrapped g x).0 ≡ x.0)
wrapped-ok g (d, ok a) h = (h, refl)
wrapped-ok g (d, err e) h = absurd (ground (arith, h))

wrapping-Does :
    {A : Type 0} (s : SourceBlock) (q : Result Error A) (g : Error → Error) (m : M A)
    → Does s q m
    → Does s q (wrapping g m)
wrapping-Does s q g m p d same a h =
    let (inner, kept) = wrapped-ok g (m d) h in
    let (value, adds) = p d same a inner in
    (value, (ap (λ x. x.offered) kept ∙ adds.0, ap (λ x. x.source_block) kept ∙ adds.1))

lift-Does : {A : Type 0} (s : SourceBlock) (q : Result Error A) → Does s q (lift q)
lift-Does s q d same a h = (h, Adds-nil d)

checked-Does :
    (s : SourceBlock) (b : ℕ) (e : Option Error) → Does s (ok b) (lift (fail_with e) >> pure b)
checked-Does s b none d same a h = (h, Adds-nil d)
checked-Does s b (some e) d same a h = absurd (ground (arith, h))

reject-Does :
    (w : World) (s : SourceBlock) (q : Result Error ℕ)
    → Does s q (lift q >>= λ b. lift (fail_with (w.block b).rcpt_reject) >> pure b)
reject-Does w s (err e) d same a h = absurd (ground (arith, h))
reject-Does w s (ok b) d same a h = checked-Does s b (w.block b).rcpt_reject d same a h

routed-Does :
    (w : World) (s : SourceBlock) (to : Text)
    → Does s (rcpt_block_for_addr w.packages s to) (routed w to)
unfolding routed
routed-Does w s to d same a h =
    let q = rcpt_block_for_addr w.packages d.source_block to in
    let (value, adds) = reject-Does w d.source_block q d refl a h in
    (subst (λ t. rcpt_block_for_addr w.packages t to ≡ ok a) same value, adds)

Does-after :
    {A : Type 0} (s : SourceBlock) (q : Result Error A) (d : Delivering)
    (x : Delivering × Result Error (Unit {0})) (n : M A) (a : A)
    → (after x (λ _. n)).1 ≡ ok a
    → d.source_block ≡ s
    → ((u : Unit {0}) → x.1 ≡ ok u → Adds [] d x.0)
    → Does s q n
    → (q ≡ ok a) × Adds [] d (after x (λ _. n)).0
Does-after s q d (e, err r) n a h same p k = absurd (ground (arith, h))
Does-after s q d (e, ok u) n a h same p k =
    let adds = p u refl in
    let (value, more) = k e (adds.1 ∙ same) a h in (value, Adds-trans [] [] d e (n e).0 adds more)

block_rewrite-Does :
    (w : World) (s : SourceBlock) (to : Text) (b : ℕ)
    → Does s (group_rcpt (w.block b).rcpt_modifiers to) (block_rewrite w to b)
unfolding block_rewrite
block_rewrite-Does w s to b d same a h =
    let q = group_rcpt (w.block b).rcpt_modifiers to in
    Does-after s q d (get_rcpt_modifiers w b d) (lift q) a h same
      (λ u e. get_rcpt_modifiers-Offers w b d u e) (lift-Does s q)

block_check-Offers : (w : World) (to : Text) (b : ℕ) → Offers [] (block_check w to b)
unfolding block_check
block_check-Offers w to b d a h = Adds-nil d

deliver_each-Follows :
    (w : World) (s : SourceBlock) (orig : Text) (tos : List Text)
    → Follows s (plan_each w s tos) (deliver_each w orig tos)
unfolding deliver_each
deliver_each-Follows w s orig [] = λ d _ _ _. ([], refl, Adds-nil d)
deliver_each-Follows w s orig (to ∷ tos) =
    let g = wrap to in
    Does-then s (rcpt_block_for_addr w.packages s to) _ (wrapping g (routed w to)) _
      (wrapping-Does s _ g (routed w to) (routed-Does w s to))
      (λ b.
        Offers-then s _ (wrapping g (block_check w to b)) _
          (wrapping-Offers [] g (block_check w to b) (block_check-Offers w to b))
          (λ _.
            Does-then s (group_rcpt (w.block b).rcpt_modifiers to) _
              (wrapping g (block_rewrite w to b)) _
              (wrapping-Does s _ g (block_rewrite w to b) (block_rewrite-Does w s to b))
              (λ rewritten.
                Part-then s (fan_out (w.block b).targets rewritten) (plan_each w s tos)
                  (offer_rewritten w orig (w.block b).targets rewritten) _
                  (offer_rewritten-Offers w orig (w.block b).targets rewritten)
                  (λ _. deliver_each-Follows w s orig tos))))

source_check-Offers : (w : World) (to : Text) → Offers [] (source_check w to)
unfolding source_check
source_check-Offers w to d a h = Adds-nil d

source_rewrite-Does :
    (s : SourceBlock) (tos : List Text)
    → Does s (rewrite_each (group_rcpt s.source_modifiers) tos) (source_rewrite tos)
unfolding source_rewrite
source_rewrite-Does s tos d same a h =
    (subst (λ t. rewrite_each (group_rcpt t.source_modifiers) tos ≡ ok a) same h, Adds-nil d)

-- When `AddRcpt` accepts a recipient, the targets have been offered exactly the addresses of the plan,
-- in its order and after those offered before: the pipeline's and then the source's modifiers rewrite
-- the recipient, each result is routed to its block, the block's modifiers rewrite it once more, and
-- each target of the block is offered each address. What checks answer and what was accepted before
-- do not matter.
pub add_rcpt-plan :
    (w : World) (p : MsgPipeline) (to : Text) (d : Delivering)
    → (add_rcpt w p to d).1 ≡ ok tt
    → (l : List (ℕ × Text)) × (plan w d.source_block p to ≡ ok l)
      × ((add_rcpt w p to d).0.offered ≡ d.offered ++ l)
unfolding add_rcpt
add_rcpt-plan w p to d h =
    let s = d.source_block in
    let whole = plan w s p to in
    let (l, planned, adds) =
      Offers-then s whole (run_check (λ r. check_rcpt_of w.checks r p.global_checks to)) _
        (λ e _ _. Adds-nil e)
        (λ _. Offers-then s whole (source_check w to) _ (source_check-Offers w to) (λ _.
          Does-then s (group_rcpt p.global_modifiers to) _ (lift (group_rcpt p.global_modifiers to))
            _ (lift-Does s _)
            (λ tos.
              Does-then s (rewrite_each (group_rcpt s.source_modifiers) tos) _ (source_rewrite tos)
                _ (source_rewrite-Does s tos)
                (λ effective. deliver_each-Follows w s to effective))))
        d refl tt h in
    (l, planned, adds.0)
