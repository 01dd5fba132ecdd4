-- ===== src/Queue/Deliver/Outcome.antt =====
-- When a recipient counts as delivered.
use sirr_mesh.Base.{
  ◌≡◌, refl, ◌∙◌, ◌↔◌, inl, inr, Bool, true, false, ◌||◌, Option, none, some, List, [], ◌∷◌, ◌++◌,
  arith, Bool-cases, Text, text_eq, text_eq_iff, lookup, insert, has_key, has_key-insert, member,
  member-append,
}
use sirr_mesh.Exterrors.{Error}
use sirr_mesh.Queue.Deliver.{
  Data, atomic, partial, Target, Call, call_start, call_body, call_commit, rcpt_calls, Errs,
  set_status, expand, answer, started, add_rcpts, set_statuses, run_body, all_failed, finish,
  settle, transfer, after_start, deliver,
}

expand_lem :
    (e : Error) (rcpts : List Text) (errs : Errs) (r : Text)
    → has_key r (expand e rcpts errs) ≡ (has_key r errs || member r rcpts)
unfolding expand
expand_lem e [] errs r = ground arith
expand_lem e (x ∷ rcpts) errs r =
    expand_lem e rcpts (insert x e errs) r ∙ rw (has_key-insert x r e errs) (ground arith)

set_statuses_keeps :
    (statuses : List (Text × Option Error)) (errs : Errs) (r : Text)
    → has_key r errs ≡ true
    → has_key r (set_statuses errs statuses) ≡ true
unfolding set_statuses
set_statuses_keeps [] errs r h = h
set_statuses_keeps ((x, none) ∷ statuses) errs r h =
    unfold set_status in set_statuses_keeps statuses errs r h
set_statuses_keeps ((x, some e) ∷ statuses) errs r h =
    unfold set_status in
    set_statuses_keeps statuses (insert x e errs) r (rw (has_key-insert x r e errs) (ground arith))

run_body_keeps :
    (d : Data) (accepted : List Text) (errs : Errs) (r : Text)
    → has_key r errs ≡ true
    → has_key r (run_body d accepted errs) ≡ true
unfolding run_body
run_body_keeps (atomic none) accepted errs r h = h
run_body_keeps (atomic (some e)) accepted errs r h = rw (expand_lem e accepted errs r, h)
run_body_keeps (partial statuses) accepted errs r h = set_statuses_keeps statuses errs r h

-- A recipient that is refused with an error, or accepted.
abbrev answered : Text → Errs × List Text → Bool
answered r (errs, accepted) = has_key r errs || member r accepted

answer_covers :
    (x : Text) (o : Option Error) (taken : Errs × List Text) (r : Text)
    → answered r (answer x o taken) ≡ (answered r taken || text_eq x r)
unfolding answer
answer_covers x (some e) (errs, accepted) r = rw (has_key-insert x r e errs) (ground arith)
answer_covers x none (errs, accepted) r = rw (member-append r accepted (x ∷ [])) (ground arith)

-- Each recipient offered is answered, and no other.
add_rcpts_covers :
    (t : Target) (to offered : List Text) (taken : Errs × List Text) (r : Text)
    → answered r (add_rcpts t offered taken to) ≡ (answered r taken || member r to)
unfolding add_rcpts
add_rcpts_covers t [] offered taken r = ground arith
add_rcpts_covers t (x ∷ to) offered taken r =
    add_rcpts_covers t to (offered ++ (x ∷ [])) (answer x (t.add_rcpt offered x) taken) r
    ∙ rw (answer_covers x (t.add_rcpt offered x) taken r) (ground arith)

all_failed_lem :
    (errs : Errs) (rcpts : List Text) (r : Text)
    → all_failed errs rcpts ≡ true
    → member r rcpts ≡ true
    → has_key r errs ≡ true
unfolding all_failed
all_failed_lem errs [] r h m = cc
all_failed_lem errs (x ∷ rcpts) r h m = ground (arith, all_failed_lem errs rcpts r, text_eq_iff x r)

not-all_failed :
    (errs : Errs) (rcpts : List Text)
    → all_failed errs rcpts ≡ false
    → (r : Text) × (member r rcpts ≡ true) × (lookup r errs ≡ none)
unfolding all_failed
not-all_failed errs [] h = cc
not-all_failed errs (x ∷ rcpts) h = elim (Bool-cases (has_key x errs)) [
  | inl e ↦ let (r, m, n) = not-all_failed errs rcpts (ground arith) in (r, ground arith, n)
  | inr e ↦ (x, ground (arith, text_eq_iff x x), ground arith)
]

finish_lem :
    (o : Option Error) (accepted : List Text) (errs : Errs) (r : Text)
    → (has_key r errs || member r accepted) ≡ true
    → has_key r (finish o accepted errs) ≡ false
    → (o ≡ none) × (finish o accepted errs ≡ errs)
unfolding finish
finish_lem none accepted errs r m h = (refl, refl)
finish_lem (some e) accepted errs r m h = cc (m, h, expand_lem e accepted errs r)

settle_commits :
    (t : Target) (errs : Errs) (accepted : List Text) (r : Text) (b : Bool)
    → all_failed errs accepted ≡ b
    → answered r (errs, accepted) ≡ true
    → has_key r (settle t errs accepted b).0 ≡ false
    → (t.commit_result ≡ none) × ((settle t errs accepted b).1 ≡ call_body ∷ call_commit ∷ [])
unfolding settle
settle_commits t errs accepted r true e m h = ground (arith, all_failed_lem errs accepted r e)
settle_commits t errs accepted r false e m h =
    ((finish_lem t.commit_result accepted errs r m h).0, refl)

run_body-answered :
    (d : Data) (accepted : List Text) (errs : Errs) (r : Text)
    → answered r (errs, accepted) ≡ true
    → answered r (run_body d accepted errs, accepted) ≡ true
run_body-answered d accepted errs r m = ground (arith, run_body_keeps d accepted errs r)

-- Behind the RCPT loop, a recipient answered is left with no error only by a commit.
transfer_commits :
    (t : Target) (errs : Errs) (accepted : List Text) (r : Text)
    → answered r (errs, accepted) ≡ true
    → has_key r (transfer t errs accepted).0 ≡ false
    → (t.commit_result ≡ none) × ((transfer t errs accepted).1 ≡ call_body ∷ call_commit ∷ [])
unfolding transfer
transfer_commits t errs [] r m h = cc (m, h)
transfer_commits t errs (a ∷ accepted) r m h =
    settle_commits t (run_body t.body (a ∷ accepted) errs) (a ∷ accepted) r _ refl
      (run_body-answered t.body (a ∷ accepted) errs r m) h

-- The attempt ended with a commit that succeeded.
abbrev pub Committed : Target → List Text → Type 0
Committed t to =
    (t.start ≡ none)
    × (t.commit_result ≡ none)
    × ((deliver t to).1 ≡ call_start ∷ (rcpt_calls to ++ (call_body ∷ call_commit ∷ [])))

abbrev taken : Target → List Text → Errs × List Text
taken t to = add_rcpts t [] ([], []) to

taken_lem : (t : Target) (to : List Text) (r : Text) → answered r (taken t to) ≡ member r to
unfolding lookup
taken_lem t to r = add_rcpts_covers t to [] ([], []) r

started_commits :
    (t : Target) (to : List Text) (r : Text) (o : Option Error)
    → member r to ≡ true
    → has_key r (started t to o).0 ≡ false
    → (o ≡ none)
      × (t.commit_result ≡ none)
      × ((started t to o).1 ≡ call_start ∷ (rcpt_calls to ++ (call_body ∷ call_commit ∷ [])))
unfolding started after_start lookup
started_commits t to r (some e) m h = cc (m, h, expand_lem e to [] r)
started_commits t to r none m h =
    let (errs, accepted) = taken t to in
    let (c, calls) = transfer_commits t errs accepted r (taken_lem t to r ∙ m) h in
    (refl, c, rw calls)

-- Some recipient that is accepted is left with no error.
Spared : Errs → List Text → Type 0
Spared errs rcpts = (r : Text) × (member r rcpts ≡ true) × (has_key r errs ≡ false)

settle_spares :
    (t : Target) (errs : Errs) (accepted : List Text) (b : Bool)
    → all_failed errs accepted ≡ b
    → t.commit_result ≡ none
    → (settle t errs accepted b).1 ≡ call_body ∷ call_commit ∷ []
    → Spared (settle t errs accepted b).0 accepted
unfolding settle Spared finish
settle_spares t errs accepted true e c h = cc
settle_spares t errs accepted false e c h =
    let (r, m, n) = not-all_failed errs accepted e in rw (c, finish) (r, m, rw n)

transfer_spares :
    (t : Target) (errs : Errs) (accepted : List Text)
    → t.commit_result ≡ none
    → (transfer t errs accepted).1 ≡ call_body ∷ call_commit ∷ []
    → Spared (transfer t errs accepted).0 accepted
unfolding transfer
transfer_spares t errs [] c h = cc
transfer_spares t errs (a ∷ accepted) c h =
    settle_spares t (run_body t.body (a ∷ accepted) errs) (a ∷ accepted) _ refl c h

calls-cancel : (to : List Text) {x y : List Call} → rcpt_calls to ++ x ≡ rcpt_calls to ++ y → x ≡ y
calls-cancel [] h = h
calls-cancel (r ∷ to) h = calls-cancel to (ground arith)

started_spares :
    (t : Target) (to : List Text) (o : Option Error)
    → o ≡ none
    → t.commit_result ≡ none
    → (started t to o).1 ≡ call_start ∷ (rcpt_calls to ++ (call_body ∷ call_commit ∷ []))
    → Spared (started t to o).0 to
unfolding started after_start Spared
started_spares t to (some e) n c h = cc
started_spares t to none n c h =
    let (errs, accepted) = taken t to in
    let (r, m, s) = transfer_spares t errs accepted c (calls-cancel to (ground arith)) in
    (r, ground (arith, taken_lem t to r), s)

-- Some recipient of the attempt has no error behind it exactly if the attempt ended with a commit
-- that succeeded: no recipient counts as delivered otherwise.
pub deliver-Committed_iff :
    (t : Target) (to : List Text)
    → ((r : Text) × (member r to ≡ true) × (has_key r (deliver t to).0 ≡ false)) ↔ Committed t to
unfolding Spared
deliver-Committed_iff t to = (
  λ w. let (r, m, h) = w in unfold deliver in started_commits t to r t.start m h,
  λ k. let (n, c, calls) = k in unfold deliver in started_spares t to t.start n c calls,
)
