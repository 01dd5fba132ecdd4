-- ===== src/Checks/States/Once.antt =====
-- No state is asked twice about a recipient.
use sirr_mesh.Base.{
  ℕ, suc, ◌+◌, ◌≡◌, refl, ◌∙◌, inl, inr, Bool, true, false, ◌&&◌, Option, none, some, List, [], ◌∷◌,
  ◌++◌, if◌then◌else◌, Text, text_eq, text_eq_iff, arith, Bool-cases, Result, ok, err,
}
use sirr_mesh.Exterrors.{Error}
use sirr_mesh.Checks.Action.{CheckResult}
use sirr_mesh.Checks.States.{
  State, Method, check_connection, check_body, check_sender, check_rcpt, Checks, Runner, same_state,
  asked, call_each, ask, ask_each, merge_into, run_each, run_rcpt, and_next, replay_sender,
  replay_rcpts, Gathered, closing, replay, gathered, gather, check_states, error_only,
  check_conn_sender, remember, rcpt_with, check_rcpt_of, body_with, check_body_of,
}

-- Is the call this question?
abbrev pub asks : State → Text → State × Method → Bool
asks s rcpt (t, check_rcpt r) = same_state t s && text_eq r rcpt
asks s rcpt (t, m) = false

-- How often a state was asked about a recipient.
abbrev pub times_asked : State → Text → List (State × Method) → ℕ
times_asked s rcpt [] = 0
times_asked s rcpt (c ∷ calls) =
    let n = times_asked s rcpt calls in if asks s rcpt c then suc n else n

-- Each state was asked at most once about each recipient, and once if this is on record.
abbrev pub Once : Runner → Type 0
Once r =
    (s : State) (rcpt : Text)
    → times_asked s rcpt r.calls ≡ (if asked s rcpt r.rcpts_per_check then 1 else 0)

times_asked-append :
    (s : State) (rcpt : Text) (calls : List (State × Method)) (c : State × Method)
    → times_asked s rcpt (calls ++ (c ∷ []))
      ≡ (if asks s rcpt c then times_asked s rcpt calls + 1 else times_asked s rcpt calls)
times_asked-append s rcpt [] c = ground arith
times_asked-append s rcpt (d ∷ calls) c = ground (arith, times_asked-append s rcpt calls c)

asked-same :
    (s t : State) (r q : Text) (record_of : List (State × Text))
    → (same_state s t && text_eq r q) ≡ true
    → asked t q record_of ≡ asked s r record_of
asked-same (a, b) (c, d) r q m h =
    let e : a ≡ c = ground (arith, h) in
    let f : b ≡ d = ground (arith, h) in
    let g : r ≡ q = ground (arith, h, text_eq_iff r q) in rw (e, f, g) refl

ask-Once :
    (k : Checks) (rcpt : Text) (s : State) (r : Runner)
    → Once r
    → Once (ask k rcpt s (asked s rcpt r.rcpts_per_check) r).0
unfolding ask
ask-Once k rcpt s r h = elim (Bool-cases (asked s rcpt r.rcpts_per_check)) [
  | inl e ↦ rw e h
  | inr e ↦ rw e (λ t q. ground (
    arith,
    h t q,
    times_asked-append t q r.calls (s, check_rcpt rcpt),
    asked-same s t rcpt q r.rcpts_per_check,
    e,
  ))
]

ask_each-Once :
    (k : Checks) (rcpt : Text) (r : Runner) (states : List State)
    → Once r
    → Once (ask_each k rcpt r states).0
unfolding ask_each
ask_each-Once k rcpt r [] h = h
ask_each-Once k rcpt r (s ∷ states) h =
    ask_each-Once k rcpt (ask k rcpt s (asked s rcpt r.rcpts_per_check) r).0 states
      (ask-Once k rcpt s r h)

-- A method that is no question about a recipient.
abbrev quiet : Method → Bool
quiet (check_rcpt r) = false
quiet _ = true

quiet-asks : (s t : State) (rcpt : Text) (m : Method) → quiet m ≡ true → asks s rcpt (t, m) ≡ false
quiet-asks s t rcpt check_connection h = refl
quiet-asks s t rcpt check_body h = refl
quiet-asks s t rcpt (check_sender f) h = refl
quiet-asks s t rcpt (check_rcpt r) h = cc

call_each-Once :
    (k : Checks) (m : Method) (r : Runner) (states : List State)
    → quiet m ≡ true
    → Once r
    → Once (call_each k m r states).0
unfolding call_each
call_each-Once k m r [] q h = h
call_each-Once k m r (s ∷ states) q h =
    call_each-Once k m (record r { calls = r.calls ++ ((s, m) ∷ []) }) states q
      (λ t rcpt. times_asked-append t rcpt r.calls (s, m) ∙ rw (quiet-asks t s rcpt m q) (h t rcpt))

merge_into-Once : (x : Runner × List CheckResult) → Once x.0 → Once (merge_into x).0
unfolding merge_into
merge_into-Once (r, results) h = h

and_next-Once :
    (x : Runner × Option Error) (next : Runner → Runner × Option Error)
    → Once x.0
    → ((r : Runner) → Once r → Once (next r).0)
    → Once (and_next x next).0
and_next-Once (r, none) next h k = k r h
and_next-Once (r, some e) next h k = h

module _ (k : Checks) where
  run_each-Once :
      (m : Method) (r : Runner) (states : List State)
      → quiet m ≡ true
      → Once r
      → Once (run_each k m r states).0
  run_each-Once m r states q h =
      merge_into-Once (call_each k m r states) (call_each-Once k m r states q h)

  run_rcpt-Once :
      (rcpt : Text) (r : Runner) (states : List State) → Once r → Once (run_rcpt k rcpt r states).0
  run_rcpt-Once rcpt r states h =
      merge_into-Once (ask_each k rcpt r states) (ask_each-Once k rcpt r states h)

  replay_sender-Once :
      (new : List State) (from : Option Text) (r : Runner)
      → Once r
      → Once (replay_sender k new from r).0
  unfolding replay_sender
  replay_sender-Once new none r h = h
  replay_sender-Once new (some from) r h =
      and_next-Once (run_each k check_connection r new)
        (λ r'. run_each k (check_sender from) r' new) (run_each-Once check_connection r new refl h)
        (λ r' h'. run_each-Once (check_sender from) r' new refl h')

  replay_rcpts-Once :
      (states : List State) (rcpts : List Text) (r : Runner)
      → Once r
      → Once (replay_rcpts k states rcpts r).0
  unfolding replay_rcpts
  replay_rcpts-Once states [] r h = h
  replay_rcpts-Once states (rcpt ∷ rcpts) r h =
      and_next-Once (run_rcpt k rcpt r states) (λ r'. replay_rcpts k states rcpts r')
        (run_rcpt-Once rcpt r states h) (λ r' h'. replay_rcpts-Once states rcpts r' h')

  replay-Once : (g : Gathered) (new : List State) (r : Runner) → Once r → Once (replay k g new r).0
  unfolding replay
  replay-Once g [] r h = h
  replay-Once g (s ∷ new) r h =
      and_next-Once (replay_sender k (s ∷ new) r.mail_from r)
        (λ r'. replay_rcpts k g.all_states r'.checked_rcpts r')
        (replay_sender-Once (s ∷ new) r.mail_from r h)
        (λ r' h'. replay_rcpts-Once g.all_states r'.checked_rcpts r' h')

  gathered-Once :
      (g : Gathered) (e : Option Error) (r : Runner) → Once r → Once (gathered k g e r).0
  unfolding gathered
  gathered-Once g (some e) r h = h
  gathered-Once g none r h = replay-Once g g.new_states r h

  closing-Once : (g : Gathered) (x : Runner × Option Error) → Once x.0 → Once (closing g x).0
  unfolding closing
  closing-Once g (r, some e) h = h
  closing-Once g (r, none) h = h

  check_states-Once : (r : Runner) (checks : List ℕ) → Once r → Once (check_states k r checks).0
  unfolding check_states
  check_states-Once r checks h =
      let g =
        gather k r.states
          (record { all_states = []; new_states = []; init_error = none; serial = r.next_serial })
          checks in
      closing-Once g (gathered k g g.init_error (record r { next_serial = g.serial }))
        (gathered-Once g g.init_error (record r { next_serial = g.serial }) h)

  rcpt_with-Once :
      (rcpt : Text) (x : Runner × Result Error (List State))
      → Once x.0
      → Once (rcpt_with k rcpt x).0
  unfolding rcpt_with remember
  rcpt_with-Once rcpt (r, err e) h = h
  rcpt_with-Once rcpt (r, ok states) h = run_rcpt-Once rcpt r states h

  body_with-Once : (x : Runner × Result Error (List State)) → Once x.0 → Once (body_with k x).0
  unfolding body_with
  body_with-Once (r, err e) h = h
  body_with-Once (r, ok states) h = run_each-Once check_body r states refl h

  error_only-Once : (x : Runner × Result Error (List State)) → Once x.0 → Once (error_only x).0
  unfolding error_only
  error_only-Once (r, err e) h = h
  error_only-Once (r, ok states) h = h

  -- Every operation of the runner keeps it so that no state is asked twice about a recipient, also
  -- when checks are replayed for new states, and when the operation fails.
  pub check_rcpt_of-Once :
      (r : Runner) (checks : List ℕ) (from rcpt : Text)
      → Once r
      → Once (check_conn_sender k r checks from).0
        × Once (check_rcpt_of k r checks rcpt).0
        × Once (check_body_of k r checks).0
  unfolding check_conn_sender check_rcpt_of check_body_of
  check_rcpt_of-Once r checks from rcpt h = (
    error_only-Once (check_states k (record r { mail_from = some from }) checks)
        (check_states-Once (record r { mail_from = some from }) checks h),
    rcpt_with-Once rcpt (check_states k r checks) (check_states-Once r checks h),
    body_with-Once (check_states k r checks) (check_states-Once r checks h),
  )
