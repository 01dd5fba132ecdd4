-- ===== src/Remote/Delivery/Accepted.antt =====
-- Every recipient that is accepted is a recipient of a connection.
use sirr_mesh.Base.{
  ◌≡◌, refl, sym, subst, ap, ◌∙◌, Bool, true, false, ◌||◌, not, ◌&&◌, ◌++◌, Option, none, some,
  List, [], ◌∷◌, Bool-cases, inl, inr, arith, Text, text_eq, text_eq_refl, Map, lookup, insert,
  lookup-insert, member, member-append, Result, ok, err,
}
use sirr_mesh.Exterrors.{Error}
use sirr_mesh.Limits.Limiters.{Taken, took, refused, panicked}
use sirr_mesh.Address.Syntax.{is_ascii}
use sirr_mesh.Remote.Mx.{Conn}
use sirr_mesh.Remote.Client.Accepted.{SentOn}
use sirr_mesh.Remote.Start.{LimitOps, Target, Rd, World}
use sirr_mesh.Remote.Delivery.{mailed, dest_taken, Outcome, rcpt_sent, add_rcpt}
use sirr_mesh.Remote.Delivery.Steps.{Kept, KeptAdded, StepsKeep, add_rcpt-Kept}

-- Is it a recipient of one of the connections?
abbrev pub covers : Text → Map Conn → Bool
covers r [] = false
covers r ((k, c) ∷ conns) = member r c.rcpts || covers r conns

covers-insert :
    (r k : Text) (c : Conn) (conns : Map Conn)
    → ((old : Conn)
        → lookup k conns ≡ some old
        → member r old.rcpts ≡ true
        → member r c.rcpts ≡ true)
    → covers r conns ≡ true
    → covers r (insert k c conns) ≡ true
unfolding insert lookup
covers-insert r k c [] h t = absurd (ground (arith, t))
covers-insert r k c ((j, d) ∷ conns) h t = elim (Bool-cases (text_eq j k)) [
  | inl e ↦ rw e (ground (arith, h d (rw e refl), t))
  | inr e ↦ rw e (ground (arith, covers-insert r k c conns (λ old q. h old (rw e q)), t))
]

covers-insert_self :
    (r k : Text) (c : Conn) (conns : Map Conn)
    → member r c.rcpts ≡ true
    → covers r (insert k c conns) ≡ true
unfolding insert
covers-insert_self r k c [] h = ground (arith, h)
covers-insert_self r k c ((j, d) ∷ conns) h = elim (Bool-cases (text_eq j k)) [
  | inl e ↦ rw e (ground (arith, h))
  | inr e ↦ rw e (ground (arith, covers-insert_self r k c conns h))
]

abbrev pub Covered : {G : Type 0} → Rd G → Type 0
Covered rd = (r : Text) → member r rd.recipients ≡ true → covers r rd.connections ≡ true

module _ {G : Type 0} (ops : LimitOps G) (rt : Target) (w : World) (to : Text) where
  abbrev InUse : Text → Rd G → Conn → Type 0
  InUse domain rd c = lookup domain rd.connections ≡ some c

  abbrev KeptCovered : Text → Option (Outcome ops rt w) → Type 0
  KeptCovered = Kept ops rt w to Covered (λ domain c. Unit {0}) InUse

  mailed-Covered :
      (domain : Text) (rd : Rd G) (c : Conn) (o : Option Error)
      → Covered rd
      → lookup domain rd.connections ≡ none
      → KeptCovered domain (some (mailed ops rt w domain rd c o))
  unfolding mailed
  mailed-Covered domain rd c (some e) i n = i
  mailed-Covered domain rd c none i n =
      let used = record c { last_use_at = w.now } in
      (
        λ r m.
            covers-insert r domain used rd.connections (λ old e. absurd (ground (arith, n, e)))
              (i r m),
        rw (lookup-insert domain domain used rd.connections, text_eq_refl domain) refl,
      )

  dest_taken-Covered :
      (domain : Text) (rd : Rd G) (c : Conn) (t : Taken G)
      → Covered rd
      → lookup domain rd.connections ≡ none
      → KeptCovered domain (dest_taken ops rt w domain rd c t)
  unfolding dest_taken
  dest_taken-Covered domain rd c (took g) i n =
      elim (Bool-cases (rt.relaxed_requiretls && not (w.server.requiretls c))) [
        | inl b ↦ rw b (mailed-Covered domain _ c _ i n)
        | inr b ↦ rw b (mailed-Covered domain _ c _ i n)
      ]
  dest_taken-Covered domain rd c (refused d g) i n = i
  dest_taken-Covered domain rd c panicked i n = tt

  member-added :
      (r : Text) (rcpts : List Text)
      → member r (rcpts ++ (to ∷ [])) ≡ (member r rcpts || text_eq to r)
  member-added r rcpts = ground (arith, member-append r rcpts (to ∷ []))

  rcpt_sent-Covered :
      ((c : Conn) → (is_ascii to || w.server.smtp_utf8 c) ≡ true)
      → (domain : Text) (rd : Rd G) (c : Conn) (o : Result Error Conn) → SentOn w.server c to o
      → Covered rd
      → InUse domain rd c
      → KeptAdded ops rt w to Covered
          (λ domain c. Unit {0})
          InUse
          (some (rcpt_sent ops rt w to domain rd o))
  unfolding rcpt_sent
  rcpt_sent-Covered plain domain rd c (err e) h i u = i
  rcpt_sent-Covered plain domain rd c (ok d) (sent, e, same) i u =
      let rcpts = ap (λ x. x.rcpts) e ∙ ap (λ t. c.rcpts ++ (t ∷ [])) (same (plain c)) in
      let used = record d { last_use_at = w.now } in
      λ r m. elim (Bool-cases (text_eq to r)) [
        | inl b ↦ covers-insert_self r domain used rd.connections (
            subst (λ l. member r l ≡ true) (sym rcpts) (member-added r c.rcpts ∙ ground (arith, b)))
        | inr b ↦
            covers-insert r domain used rd.connections
              (λ old q h.
                subst (λ l. member r l ≡ true) (sym rcpts)
                  (member-added r c.rcpts
                    ∙ ground (
                      arith,
                      subst (λ x. member r x.rcpts ≡ true) {x = old} {y = c} (cc (u, q)) h,
                    )))
              (i r (ground (arith, member-added r rd.recipients, m, b)))
      ]

  Covered-StepsKeep :
      ((c : Conn) → (is_ascii to || w.server.smtp_utf8 c) ≡ true)
      → StepsKeep ops rt w to Covered (λ domain c. Unit {0}) InUse
  Covered-StepsKeep plain = record {
    known = λ domain rd c i e. e;
    pool_kept = λ domain rd i. i;
    pooled = λ domain rd c i e. tt;
    fresh = λ n domain c e. tt;
    shut = λ rd c i. i;
    taken = λ domain rd c t i n a h e. dest_taken-Covered domain rd c t i n;
    sent = λ domain rd c o i u h. rcpt_sent-Covered plain domain rd c o h i u;
  }

  pub add_rcpt-Covered :
      ((c : Conn) → (is_ascii to || w.server.smtp_utf8 c) ≡ true)
      → (rd rd' : Rd G) (e : Option Error) → Covered rd
      → add_rcpt ops rt w to rd ≡ some (rd', e)
      → Covered rd'
  add_rcpt-Covered plain rd rd' e i h =
      subst (KeptAdded ops rt w to Covered (λ domain c. Unit {0}) InUse) h (
        add_rcpt-Kept ops rt w to Covered (λ domain c. Unit {0}) InUse (Covered-StepsKeep plain) rd
          i)
