-- ===== src/Remote/Runs/Whole.antt =====
-- What holds of a whole delivery.
use sirr_mesh.Base.{
  ℕ, ◌+◌, ◌≡◌, refl, sym, ap, ◌∙◌, subst, Bool, true, ◌||◌, Option, none, some, List, [], ◌∷◌, All,
  All-weaken, Bool-cases, inl, inr, arith, Text, member,
}
use sirr_mesh.Exterrors.{Error}
use sirr_mesh.Limits.Limiters.{took}
use sirr_mesh.Address.Syntax.{is_ascii}
use sirr_mesh.Remote.Pool.{Pool}
use sirr_mesh.Remote.Pool.Weights.{weigh}
use sirr_mesh.Remote.Pool.Held.{HeldPool}
use sirr_mesh.Remote.Mx.{Conn}
use sirr_mesh.Remote.Client.{Server, send_mail}
use sirr_mesh.Remote.Start.{
  LimitOps, Target, Meta, Rd, World, started, start, source_addr, ratelimit_domain,
}
use sirr_mesh.Remote.Delivery.{add_rcpt}
use sirr_mesh.Remote.Start.Fresh.{start-IsFresh}
use sirr_mesh.Remote.Delivery.Steps.{AllConns}
use sirr_mesh.Remote.Delivery.Required.{Secure, Authentic, add_rcpt-Secure}
use sirr_mesh.Remote.Delivery.Accepted.{Covered, add_rcpt-Covered}
use sirr_mesh.Remote.Delivery.Balance.{
  Share, for_msg, Log, recorder, owed, Owes, Homes, add_rcpt-Owes,
}
use sirr_mesh.Remote.Delivery.Same.{Same, add_rcpt-Same}
use sirr_mesh.Remote.Sending.{body_non_atomic, close}
use sirr_mesh.Remote.Sending.Statuses.{has_status, body-has_status}
use sirr_mesh.Remote.Sending.Finished.{body-owed, close-Owes}
use sirr_mesh.Remote.Runs.{add_rcpts, after_call}

-- A property that each call keeps is kept by all of them.
module _ {G : Type 0} (ops : LimitOps G) (rt : Target) (I : Rd G → Type 0) where
  abbrev KeepsCall : World × Text → Type 0
  KeepsCall call =
      (rd rd' : Rd G) (e : Option Error)
      → I rd
      → add_rcpt ops rt call.0 call.1 rd ≡ some (rd', e)
      → I rd'

  every :
      ((call : World × Text) → KeepsCall call) → (calls : List (World × Text)) → All KeepsCall calls
  every k [] = tt
  every k (call ∷ calls) = (k call, every k calls)

  abbrev After : Option (Rd G) → Type 0
  After none = Unit {0}
  After (some rd) = I rd

  after_call-After :
      (o : Option (Rd G × Option Error)) (next : Rd G → Option (Rd G))
      → ((rd : Rd G) (e : Option Error) → o ≡ some (rd, e) → After (next rd))
      → After (after_call o next)
  after_call-After none next h = tt
  after_call-After (some (rd, e)) next h = h rd e refl

  add_rcpts-After :
      (calls : List (World × Text)) (rd : Rd G)
      → All KeepsCall calls
      → I rd
      → After (add_rcpts ops rt calls rd)
  unfolding add_rcpts
  add_rcpts-After [] rd k i = i
  add_rcpts-After ((w, to) ∷ calls) rd k i =
      after_call-After (add_rcpt ops rt w to rd) (add_rcpts ops rt calls)
        (λ rd' e h. add_rcpts-After calls rd' k.1 (k.0 rd rd' e i h))

  add_rcpts-kept :
      (calls : List (World × Text)) (rd rd' : Rd G)
      → All KeepsCall calls
      → I rd
      → add_rcpts ops rt calls rd ≡ some rd'
      → I rd'
  add_rcpts-kept calls rd rd' k i h = subst After h (add_rcpts-After calls rd k i)

module _ {G : Type 0} (ops : LimitOps G) (rt : Target) (w : World) where
  -- If each recipient is in ASCII, or the servers it meets all have SMTPUTF8, a delivery that `Start` gives
  -- and that has seen any calls of `AddRcpt` sets a status for every recipient it accepted, in
  -- `BodyNonAtomic`: also if the message is in quarantine, the body cannot be opened, or DATA fails.
  pub accepted-has_status :
      (m : Meta) (from : Text) (g : G) (pool : Pool Conn) (calls : List (World × Text))
      (rd₀ rd : Rd G) (s : Server) (opens : Conn → Option Error) (now : ℕ) (r : Text)
      → All (λ call. (c : Conn) → (is_ascii call.1 || call.0.server.smtp_utf8 c) ≡ true) calls
      → start ops rt w m from g pool ≡ started rd₀
      → add_rcpts ops rt calls rd₀ ≡ some rd
      → member r rd.recipients ≡ true
      → has_status r (body_non_atomic s opens now rd).1 ≡ true
  accepted-has_status m from g pool calls rd₀ rd s opens now r plain h run m' =
      let (e₁, e₂, e₃, conns, none_yet, t) = start-IsFresh ops rt w m from g pool rd₀ h in
      body-has_status s opens now rd r
        (add_rcpts-kept ops rt Covered calls rd₀ rd
          (All-weaken (λ call p rd rd' e. add_rcpt-Covered ops rt call.0 call.1 p rd rd' e) calls
            plain)
          (λ x i. absurd (ground (arith, (rw none_yet at i)))) run)
        m'

  -- A delivery that `Start` gives and that has seen any calls of `AddRcpt` has only connections that are
  -- authenticated, by TLS and by their MX, while its message asks for REQUIRETLS.
  pub accepted-Secure :
      (m : Meta) (from : Text) (g : G) (pool : Pool Conn) (calls : List (World × Text))
      (rd₀ rd : Rd G)
      → start ops rt w m from g pool ≡ started rd₀
      → add_rcpts ops rt calls rd₀ ≡ some rd
      → Secure rd
  accepted-Secure m from g pool calls rd₀ rd h run =
      let (e₁, e₂, e₃, conns, none_yet, t) = start-IsFresh ops rt w m from g pool rd₀ h in
      add_rcpts-kept ops rt Secure calls rd₀ rd
        (every ops rt Secure (λ call rd rd' e. add_rcpt-Secure ops rt call.0 call.1 rd rd' e) calls)
        (λ asked. subst (AllConns Authentic) (sym conns) tt) run

module _ (allow : Share → Log → Bool) (rt : Target) (w : World) where
  took-msg :
      (weight : Share → ℕ) (addr d : Text) (g g' : Log)
      → (recorder allow).op_take_msg addr d g ≡ took g'
      → weigh weight g.log_taken ≡ weigh weight g.log_released
      → weigh weight g'.log_taken ≡ weigh weight g'.log_released + weight (for_msg addr d)
  took-msg weight addr d g g' e h = elim (Bool-cases (allow (for_msg addr d) g)) [
    | inr b ↦ absurd (ground (arith, (rw b at e)))
    | inl b ↦
        subst
          (λ l. weigh weight l.log_taken ≡ weigh weight l.log_released + weight (for_msg addr d))
          {x = record g { log_taken = for_msg addr d ∷ g.log_taken }} {y = g'} (cc (rw b at e))
          (omega (arith, h))
  ]

  -- From limits that record each slot that is taken and released, allow what they like, panic at the
  -- release of a slot that is not held, and hold none, and from a pool where each connection is under
  -- its domain: a delivery that `Start` gives has released just the slots that it took, each as often
  -- as it took it, after any calls of `AddRcpt` that return, `BodyNonAtomic` and `Close`, if no server
  -- refuses MAIL, and `Close` neither panics nor fails.
  pub whole-released :
      (m : Meta) (from : Text) (g : Log) (pool : Pool Conn) (calls : List (World × Text))
      (rd₀ rd : Rd Log) (s : Server) (opens : Conn → Option Error) (now : ℕ)
      → All
          (λ call.
            (c : Conn) (utf8 : Bool) (from : Text) → send_mail call.0.server c utf8 from ≡ none)
          calls
      → ((v : Share → ℕ) → weigh v g.log_taken ≡ weigh v g.log_released)
      → HeldPool (λ domain c. c.domain ≡ domain) pool
      → start (recorder allow) rt w m from g pool ≡ started rd₀
      → add_rcpts (recorder allow) rt calls rd₀ ≡ some rd
      → (rd' : Rd Log) × (close (recorder allow) rt s now (body_non_atomic s opens now rd).0
          ≡ some (rd', none))
        × ((v : Share → ℕ) → weigh v rd'.limits.log_taken ≡ weigh v rd'.limits.log_released)
  whole-released m from g pool calls rd₀ rd s opens now mail_ok h home begun run =
      let ops = recorder allow in
      let (e₁, e₂, e₃, conns, none_yet, (d, split_ok, msg)) =
        start-IsFresh ops rt w m from g pool rd₀ begun in
      let sums : (v : Share → ℕ) → Owes v (v (for_msg (source_addr m) d)) rd = λ v.
        let n = v (for_msg (source_addr m) d) in
        add_rcpts-kept ops rt (Owes v n) calls rd₀ rd
          (All-weaken (λ call p. add_rcpt-Owes allow rt v n call.0 call.1 p) calls mail_ok)
          (
            subst
                (λ l. weigh v rd₀.limits.log_taken ≡ weigh v rd₀.limits.log_released + owed v l + n)
                (sym conns) (omega (arith, took-msg v (source_addr m) d g rd₀.limits msg (h v))),
            subst Homes (sym conns) tt,
            subst (HeldPool (λ domain c. c.domain ≡ domain)) (sym e₃) home,
          )
          run in
      let same =
        add_rcpts-kept ops rt (Same ops rt w [] from (source_addr m)) calls rd₀ rd
          (every ops rt (Same ops rt w [] from (source_addr m))
            (λ call rd rd' e. add_rcpt-Same ops rt call.0 call.1 from (source_addr m) rd rd' e)
            calls)
          (e₁, ap source_addr e₂) run in
      let (from_kept, meta_kept, limits_kept) = (body-owed s opens now (λ x. 0) rd).0 in
      close-Owes allow rt s now (body_non_atomic s opens now rd).0 d
        (ap ratelimit_domain (from_kept ∙ same.0) ∙ split_ok)
        (λ v. omega (
          arith,
          (sums v).0,
          (body-owed s opens now v rd).1,
          ap (λ l. weigh v l.log_taken) limits_kept,
          ap (λ l. weigh v l.log_released) limits_kept,
          ap (λ x. v (for_msg x d)) (ap source_addr meta_kept ∙ same.1),
        ))
