-- ===== src/Pipeline/Body/Sent.antt =====
-- Which targets get the message, and what they get.
use sirr_mesh.Base.{
  ℕ, ◌≡◌, ◌≢◌, ◌⊎◌, inl, inr, refl, ap, Bool, true, false, Option, none, some, List, [], ◌∷◌, ◌++◌,
  Text, Result, ok, err, arith,
}
use sirr_mesh.Exterrors.{Error}
use sirr_mesh.Checks.Results.{Message, apply_results}
use sirr_mesh.Pipeline.Config.{MsgPipeline, World, Delivering}
use sirr_mesh.Checks.States.{check_body_of}
use sirr_mesh.Pipeline.Steps.{after, run_check}
use sirr_mesh.Pipeline.Body.{
  Job, Outcome, targets_of, check_bodies, rcpt_checks_of, with_field, add_received, run_next,
  run_all, rewrite_bodies, modifiers_of, stopped, sent, with_header, with_results, with_received,
  with_checks, body, commit, latest, abort_all, abort,
}

abbrev pub Accept : (ℕ → Option Error) → List ℕ → Type 0
Accept call [] = Unit {0}
Accept call (t ∷ ts) = (call t ≡ none) × Accept call ts

-- All were called and accept, or those up to the first one that does not, whose error is the result.
abbrev pub Runs : (ℕ → Option Error) → List ℕ → List ℕ → Option Error → Type 0
Runs call ts called e =
    ((e ≡ none) × (called ≡ ts) × Accept call ts)
    ⊎ ((before : List ℕ) × (t : ℕ) × (rest : List ℕ) × (ts ≡ before ++ (t ∷ rest))
        × (called ≡ before ++ (t ∷ []))
        × Accept call before
        × (e ≡ call t)
        × (call t ≢ none))

run_next-Runs :
    (call : ℕ → Option Error) (t : ℕ) (ts : List ℕ) (o : Option Error) (r : List ℕ × Option Error)
    → call t ≡ o
    → Runs call ts r.0 r.1
    → Runs call (t ∷ ts) (run_next t o r).0 (run_next t o r).1
unfolding run_next
run_next-Runs call t ts none (called, e) same (inl (fine, all, accept)) =
    inl (fine, ap (λ l. t ∷ l) all, (same, accept))
run_next-Runs call t ts none (called, e) same
      (inr (before, u, rest, cut, upto, accept, error, bad)) =
    inr (t ∷ before, u, rest, ap (λ l. t ∷ l) cut, ap (λ l. t ∷ l) upto, (same, accept), error, bad)
run_next-Runs call t ts (some x) r same h =
    inr ([], t, ts, refl, refl, tt, rw same refl, λ n. absurd (ground (arith, same, n)))

run_all-Runs :
    (call : ℕ → Option Error) (ts : List ℕ) → Runs call ts (run_all call ts).0 (run_all call ts).1
unfolding run_all
run_all-Runs call [] = inl (refl, refl, tt)
run_all-Runs call (t ∷ ts) =
    run_next-Runs call t ts (call t) (run_all call ts) refl (run_all-Runs call ts)

-- Each list of checks ran and let the message pass, each from what the one before it left.
abbrev pub Passed : World → List (List ℕ) → Delivering → Delivering → Type 0
Passed w [] d d' = d' ≡ d
Passed w (checks ∷ rest) d d' =
    (mid : Delivering) × (run_check (λ r. check_body_of w.checks r checks) d ≡ (mid, ok tt))
    × Passed w rest mid d'

-- A list of checks ran and gave the error, and those in front of it ran and let the message pass.
abbrev pub Refused : World → List (List ℕ) → Delivering → Delivering → Error → Type 0
Refused w [] d d' e = ⊥
Refused w (checks ∷ rest) d d' e =
    (run_check (λ r. check_body_of w.checks r checks) d ≡ (d', err e))
    ⊎ ((mid : Delivering) × (run_check (λ r. check_body_of w.checks r checks) d ≡ (mid, ok tt))
        × Refused w rest mid d' e)

check_bodies-ends :
    (w : World) (lists : List (List ℕ)) (d : Delivering)
    → ((e : Error) × ((check_bodies w lists d).1 ≡ err e)
        × Refused w lists d (check_bodies w lists d).0 e)
      ⊎ (((check_bodies w lists d).1 ≡ ok tt) × Passed w lists d (check_bodies w lists d).0)
unfolding check_bodies
check_bodies-ends w [] d = inr (refl, refl)
check_bodies-ends w (checks ∷ rest) d =
    check_then (check_bodies-ends w rest) (run_check (λ r. check_body_of w.checks r checks) d) refl
  where
    check_then :
        ((mid : Delivering)
          → ((e : Error) × ((check_bodies w rest mid).1 ≡ err e)
              × Refused w rest mid (check_bodies w rest mid).0 e)
            ⊎ (((check_bodies w rest mid).1 ≡ ok tt)
                × Passed w rest mid (check_bodies w rest mid).0))
        → (x : Delivering × Result Error (Unit {0}))
        → run_check (λ r. check_body_of w.checks r checks) d ≡ x
        → ((e : Error) × ((after x (λ _. check_bodies w rest)).1 ≡ err e)
            × Refused w (checks ∷ rest) d (after x (λ _. check_bodies w rest)).0 e)
          ⊎ (((after x (λ _. check_bodies w rest)).1 ≡ ok tt)
              × Passed w (checks ∷ rest) d (after x (λ _. check_bodies w rest)).0)
    check_then more (mid, err e) same = inl (e, refl, inl same)
    check_then more (mid, ok u) same = elim (more mid) [
      | inl (e, bad, h) ↦ inl (e, bad, inr (mid, same, h))
      | inr (good, h) ↦ inr (good, (mid, same, h))
    ]

-- The checks of the configuration, of the source block and of the blocks of the recipients.
abbrev pub lists_of : World → MsgPipeline → Delivering → List (List ℕ)
lists_of w p d = p.global_checks ∷ d.source_block.source_checks ∷ rcpt_checks_of w d.opened

-- The message with the field Received, if this is the first pipeline.
abbrev pub Received : MsgPipeline → Job → Message → Message → Type 0
Received p j msg before =
    ((p.first_pipeline ≡ false) × (before ≡ msg))
    ⊎ ((field : Text) × (p.first_pipeline ≡ true)
        × (j.received ≡ ok field)
        × (before ≡ record msg { header = j.formats.add_field field msg.header }))

-- Why no target was called, when the checks left `d'`.
abbrev pub Stops : World → MsgPipeline → Job → Message → Delivering → Delivering → Error → Type 0
Stops w p j msg d d' e =
    Refused w (lists_of w p d) d d' e
    ⊎ (Passed w (lists_of w p d) d d' × (p.first_pipeline ≡ true) × (j.received ≡ err e))
    ⊎ ((before after : Message) × Passed w (lists_of w p d) d d'
        × Received p j msg before
        × (apply_results j.formats p.hostname d'.runner.merged j.dmarc before ≡ (after, some e)))
    ⊎ ((before after : Message) × Passed w (lists_of w p d) d d'
        × Received p j msg before
        × (apply_results j.formats p.hostname d'.runner.merged j.dmarc before ≡ (after, none))
        × (rewrite_bodies (modifiers_of w p d') after.header ≡ err e))

-- No target was called for one of these reasons; or the checks passed, and the targets were called
-- with the header that the modifiers made of the one that `applyResults` left.
abbrev pub Sends : World → MsgPipeline → Job → Message → Delivering → Outcome → Type 0
Sends w p j msg d o =
    ((e : Error) × (o.called ≡ []) × (o.failure ≡ some e) × Stops w p j msg d o.leaves e)
    ⊎ ((before after : Message) × Passed w (lists_of w p d) d o.leaves
        × Received p j msg before
        × (apply_results j.formats p.hostname o.leaves.runner.merged j.dmarc before ≡ (after, none))
        × (o.message.quarantined ≡ after.quarantined)
        × (rewrite_bodies (modifiers_of w p o.leaves) after.header ≡ ok o.message.header)
        × Runs (λ t. w.target_body t o.message.header) (targets_of o.leaves.deliveries) o.called
            o.failure)

module _ (w : World) (p : MsgPipeline) (j : Job) (msg : Message) (d d' : Delivering) where
  stopped-Sends :
      (m : Message) (e : Error) → Stops w p j msg d d' e → Sends w p j msg d (stopped d' m e)
  unfolding stopped
  stopped-Sends m e why = inl (e, refl, refl, why)

  module _ (passed : Passed w (lists_of w p d) d d') where
    with_header-Sends :
        (before m : Message) (h : Result Error (List Text))
        → Received p j msg before
        → apply_results j.formats p.hostname d'.runner.merged j.dmarc before ≡ (m, none)
        → rewrite_bodies (modifiers_of w p d') m.header ≡ h
        → Sends w p j msg d (with_header w d' m h)
    unfolding with_header sent
    with_header-Sends before m (err e) received applied made =
        stopped-Sends m e (inr (inr (inr (before, m, passed, received, applied, made))))
    with_header-Sends before m (ok h) received applied made = inr (
      before,
      m,
      passed,
      received,
      applied,
      refl,
      made,
      run_all-Runs (λ t. w.target_body t h) (targets_of d'.deliveries),
    )

    with_results-Sends :
        (before : Message) (r : Message × Option Error)
        → Received p j msg before
        → apply_results j.formats p.hostname d'.runner.merged j.dmarc before ≡ r
        → Sends w p j msg d (with_results w p d' r)
    unfolding with_results
    with_results-Sends before (m, some e) received applied =
        stopped-Sends m e (inr (inr (inl (before, m, passed, received, applied))))
    with_results-Sends before (m, none) received applied =
        with_header-Sends before m _ received applied refl

    with_field-Sends :
        (o : Result Error Text)
        → p.first_pipeline ≡ true
        → j.received ≡ o
        → Sends w p j msg d (with_received w p j d' msg (with_field j msg o))
    unfolding with_received with_field
    with_field-Sends (err e) first given = stopped-Sends msg e (inr (inl (passed, first, given)))
    with_field-Sends (ok field) first given =
        with_results-Sends (record msg { header = j.formats.add_field field msg.header }) _
          (inr (field, first, given, refl)) refl

    add_received-Sends :
        (first : Bool)
        → p.first_pipeline ≡ first
        → Sends w p j msg d (with_received w p j d' msg (add_received first j msg))
    unfolding add_received with_received
    add_received-Sends true h = with_field-Sends j.received h refl
    add_received-Sends false h = with_results-Sends msg _ (inl (h, refl)) refl

with_checks-Sends :
    (w : World) (p : MsgPipeline) (j : Job) (msg : Message) (d d' : Delivering)
    (r : Result Error (Unit {0}))
    → ((e : Error) × (r ≡ err e) × Refused w (lists_of w p d) d d' e)
      ⊎ ((r ≡ ok tt) × Passed w (lists_of w p d) d d')
    → Sends w p j msg d (with_checks w p j msg (d', r))
unfolding with_checks
with_checks-Sends w p j msg d d' r (inl (e, bad, why)) =
    rw bad (stopped-Sends w p j msg d d' msg e (inl why))
with_checks-Sends w p j msg d d' r (inr (good, passed)) =
    rw good (add_received-Sends w p j msg d d' passed p.first_pipeline refl)

-- `Body` runs the checks of the configuration, of the source and of the recipients' blocks, in this
-- order, up to the first list that refuses. If none does, and the field Received could be made where it
-- is due, `applyResults` accepts the message with that field, by the merged results of all checks, and
-- the modifiers make a header of what it left, then the targets are called in order, all with that
-- header, up to the first one that refuses, whose error is returned. The message is marked for
-- quarantine as `applyResults` says. Otherwise no target is called, and the error is that of the step
-- that failed.
pub body-Sends :
    (w : World) (p : MsgPipeline) (j : Job) (msg : Message) (d : Delivering)
    → Sends w p j msg d (body w p j msg d)
unfolding body
body-Sends w p j msg d = with_checks-Sends w p j msg d _ _ (check_bodies-ends w (lists_of w p d) d)

-- The last error, if there is one.
abbrev pub Ends : Option Error → (ℕ → Option Error) → List ℕ → Option Error → Type 0
Ends last call ts e =
    ((e ≡ last) × Accept call ts)
    ⊎ ((before : List ℕ) × (t : ℕ) × (rest : List ℕ) × (ts ≡ before ++ (t ∷ rest))
        × (e ≡ call t)
        × (call t ≢ none)
        × Accept call rest)

latest-Ends :
    (last : Option Error) (call : ℕ → Option Error) (t : ℕ) (ts : List ℕ) (o e : Option Error)
    → call t ≡ o
    → Ends (latest last o) call ts e
    → Ends last call (t ∷ ts) e
unfolding latest
latest-Ends last call t ts none e same (inl (kept, accept)) = inl (kept, (same, accept))
latest-Ends last call t ts (some x) e same (inl (kept, accept)) =
    inr ([], t, ts, refl, rw same kept, λ n. absurd (ground (arith, same, n)), accept)
latest-Ends last call t ts o e same (inr (before, u, rest, cut, error, bad, accept)) =
    inr (t ∷ before, u, rest, ap (λ l. t ∷ l) cut, error, bad, accept)

abort_all-Ends :
    (call : ℕ → Option Error) (last : Option Error) (ts : List ℕ)
    → ((abort_all call last ts).0 ≡ ts) × Ends last call ts (abort_all call last ts).1
unfolding abort_all
abort_all-Ends call last [] = (refl, inl (refl, tt))
abort_all-Ends call last (t ∷ ts) =
    let (all, ends) = abort_all-Ends call (latest last (call t)) ts in
    (ap (λ l. t ∷ l) all, latest-Ends last call t ts (call t) _ refl ends)

-- `Commit` goes on to the first target that fails and returns its error; `Abort` calls every target
-- whatever they answer, and returns the error of the last one that fails, if one does.
pub commit-Runs :
    (w : World) (d : Delivering)
    → Runs w.target_commit (targets_of d.deliveries) (commit w d).0 (commit w d).1
      × ((abort w d).0 ≡ targets_of d.deliveries)
      × Ends none w.target_abort (targets_of d.deliveries) (abort w d).1
unfolding commit abort
commit-Runs w d =
    let (all, ends) = abort_all-Ends w.target_abort none (targets_of d.deliveries) in
    (run_all-Runs w.target_commit (targets_of d.deliveries), all, ends)
