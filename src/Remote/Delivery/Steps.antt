-- ===== src/Remote/Delivery/Steps.antt =====
-- A rule for `AddRcpt`: what each of its steps has to keep, for a property of the delivery.
use sirr_mesh.Base.{
  ◌≡◌, refl, ap, subst, ◌++◌, Bool, true, false, Option, none, some, [], ◌∷◌, All, Bool-cases, inl,
  inr, arith, Text, text_eq, Map, lookup, insert, has_prefix, text, Result, ok, err,
}
use sirr_mesh.Exterrors.{Error}
use sirr_mesh.Address.Errors.{Err}
use sirr_mesh.Address.Syntax.{split}
use sirr_mesh.Limits.Limiters.{Taken}
use sirr_mesh.Remote.Connect.{require_levels}
use sirr_mesh.Remote.Pool.{Got, get}
use sirr_mesh.Remote.Mx.{Conn, Network, new_conn}
use sirr_mesh.Remote.Client.{send_rcpt}
use sirr_mesh.Remote.Client.Accepted.{SentOn, send_rcpt-SentOn}
use sirr_mesh.Remote.Start.{LimitOps, Target, Rd, World, pool_config}
use sirr_mesh.Remote.Delivery.{
  close_conn, dest_taken, levels_checked, check_levels, opened_new, open_new, use_pooled, from_pool,
  connect_domain, connection_for_domain, Outcome, Added, rcpt_sent, with_conn, rcpt_domain,
  rcpt_parts, rcpt_unless, add_rcpt,
}

abbrev pub AllConns : (Conn → Type 0) → Map Conn → Type 0
AllConns P conns = All (λ e. P e.1) conns

pub AllConns-insert :
    (P : Conn → Type 0) (k : Text) (c : Conn) (conns : Map Conn)
    → P c
    → AllConns P conns
    → AllConns P (insert k c conns)
unfolding insert
AllConns-insert P k c [] h t = (h, tt)
AllConns-insert P k c ((j, d) ∷ conns) h t = elim (Bool-cases (text_eq j k)) [
  | inl e ↦ rw e (h, t.1)
  | inr e ↦ rw e (t.0, AllConns-insert P k c conns h t.1)
]

pub AllConns-lookup :
    (P : Conn → Type 0) (k : Text) (c : Conn) (conns : Map Conn)
    → lookup k conns ≡ some c
    → AllConns P conns
    → P c
unfolding lookup
AllConns-lookup P k c [] e t = absurd (ground (arith, e))
AllConns-lookup P k c ((j, d) ∷ conns) e t = elim (Bool-cases (text_eq j k)) [
  | inl b ↦ subst P {x = d} {y = c} (cc (rw b at e)) t.0
  | inr b ↦ AllConns-lookup P k c conns (rw b at e) t.1
]

-- `I` is the property of the delivery, `Cand` of a connection that was got for the domain, and `J` of one
-- that is in use for it.
module _ {G : Type 0} (ops : LimitOps G) (rt : Target) (w : World) (to : Text) (I : Rd G → Type 0)
    (Cand : Text → Conn → Type 0) (J : Text → Rd G → Conn → Type 0) where
  abbrev pub Kept : Text → Option (Outcome ops rt w) → Type 0
  Kept domain none = Unit {0}
  Kept domain (some (rd, err e)) = I rd
  Kept domain (some (rd, ok c)) = I rd × J domain rd c

  abbrev pub KeptAdded : Option (Added ops rt w) → Type 0
  KeptAdded none = Unit {0}
  KeptAdded (some (rd, e)) = I rd

  abbrev pool_answer : Text → Rd G → Got Conn
  pool_answer domain rd = get (pool_config rt w.server) w.now domain rd.pool

  abbrev after_get : Text → Rd G → Rd G
  after_get domain rd =
      let got = pool_answer domain rd in
      record rd { pool = got.pool; closed = got.got_closed ++ rd.closed }

  pub record StepsKeep : Type 0 where
    pub known :
        (domain : Text) (rd : Rd G) (c : Conn)
        → I rd
        → lookup domain rd.connections ≡ some c
        → J domain rd c
    pub pool_kept : (domain : Text) (rd : Rd G) → I rd → I (after_get domain rd)
    pub pooled :
        (domain : Text) (rd : Rd G) (c : Conn)
        → I rd
        → (pool_answer domain rd).conn ≡ ok (some c)
        → Cand domain c
    pub fresh :
        (n : Network) (domain : Text) (c : Conn)
        → new_conn n w.now rt.conn_reuse_limit domain ≡ some (ok c)
        → Cand domain c
    pub shut : (rd : Rd G) (c : Conn) → I rd → I (close_conn ops rt w c rd)
    pub taken :
        (domain : Text) (rd : Rd G) (c : Conn) (t : Taken G)
        → I rd
        → lookup domain rd.connections ≡ none
        → Cand domain c
        → require_levels rd.msg_meta.require_tls c.tls_level c.mx_level ≡ none
        → ops.op_take_dest domain rd.limits ≡ t
        → Kept domain (dest_taken ops rt w domain rd c t)
    pub sent :
        (domain : Text) (rd : Rd G) (c : Conn) (o : Result Error Conn)
        → I rd
        → J domain rd c
        → SentOn w.server c to o
        → KeptAdded (some (rcpt_sent ops rt w to domain rd o))

  module _ (k : StepsKeep) where
    check_levels-Kept :
        (domain : Text) (rd : Rd G) (c : Conn) (o : Option Error)
        → require_levels rd.msg_meta.require_tls c.tls_level c.mx_level ≡ o
        → I rd
        → lookup domain rd.connections ≡ none
        → Cand domain c
        → Kept domain (levels_checked ops rt w domain rd c o)
    unfolding levels_checked
    check_levels-Kept domain rd c (some e) h i n a = k.shut rd c i
    check_levels-Kept domain rd c none h i n a =
        k.taken domain rd c (ops.op_take_dest domain rd.limits) i n a h refl

    opened_new-Kept :
        (domain : Text) (rd : Rd G) (o : Option (Result Error Conn))
        → I rd
        → lookup domain rd.connections ≡ none
        → ((c : Conn) → o ≡ some (ok c) → Cand domain c)
        → Kept domain (opened_new ops rt w domain rd o)
    unfolding opened_new check_levels
    opened_new-Kept domain rd none i n a = tt
    opened_new-Kept domain rd (some (err e)) i n a = i
    opened_new-Kept domain rd (some (ok c)) i n a =
        check_levels-Kept domain rd c _ refl i n (a c refl)

    open_new-Kept :
        (domain : Text) (rd : Rd G)
        → I rd
        → lookup domain rd.connections ≡ none
        → Kept domain (open_new ops rt w domain rd)
    unfolding open_new
    open_new-Kept domain rd i n =
        let net = record (w.net) { policies = rd.policies } in
        opened_new-Kept domain rd (new_conn net w.now rt.conn_reuse_limit domain) i n
          (k.fresh net domain)

    use_pooled-Kept :
        (domain : Text) (rd : Rd G) (b : Bool) (o : Option Conn)
        → I rd
        → lookup domain rd.connections ≡ none
        → ((c : Conn) → o ≡ some c → Cand domain c)
        → Kept domain (use_pooled ops rt w domain rd b o)
    unfolding use_pooled check_levels
    use_pooled-Kept domain rd false (some c) i n a =
        check_levels-Kept domain rd c _ refl i n (a c refl)
    use_pooled-Kept domain rd true (some c) i n a = open_new-Kept domain rd i n
    use_pooled-Kept domain rd true none i n a = open_new-Kept domain rd i n
    use_pooled-Kept domain rd false none i n a = open_new-Kept domain rd i n

    from_pool-Kept :
        (domain : Text) (rd : Rd G) (o : Result Error (Option Conn))
        → I rd
        → lookup domain rd.connections ≡ none
        → ((c : Conn) → o ≡ ok (some c) → Cand domain c)
        → Kept domain (from_pool ops rt w domain rd o)
    unfolding from_pool
    from_pool-Kept domain rd (err e) i n a = i
    from_pool-Kept domain rd (ok o) i n a =
        use_pooled-Kept domain rd rd.msg_meta.require_tls o i n (λ c e. a c (ap ok e))

    connect_domain-Kept :
        (domain : Text) (rd : Rd G) (o : Option Conn)
        → lookup domain rd.connections ≡ o
        → I rd
        → Kept domain (connect_domain ops rt w domain rd o)
    unfolding connect_domain
    connect_domain-Kept domain rd (some c) e i = (i, k.known domain rd c i e)
    connect_domain-Kept domain rd none e i =
        from_pool-Kept domain (after_get domain rd) (pool_answer domain rd).conn
          (k.pool_kept domain rd i) e (λ c. k.pooled domain rd c i)

    with_conn-Kept :
        (domain : Text) (o : Option (Outcome ops rt w))
        → Kept domain o
        → KeptAdded (with_conn ops rt w to domain o)
    unfolding with_conn
    with_conn-Kept domain none h = tt
    with_conn-Kept domain (some (rd, err e)) h = h
    with_conn-Kept domain (some (rd, ok c)) h =
        k.sent domain rd c (send_rcpt w.server c to) h.0 h.1 (send_rcpt-SentOn w.server c to)

    rcpt_domain-Kept :
        (rd : Rd G) (domain : Text) → I rd → KeptAdded (rcpt_domain ops rt w to rd domain)
    unfolding rcpt_domain connection_for_domain
    rcpt_domain-Kept rd [] i = i
    rcpt_domain-Kept rd (c ∷ cs) i = elim (Bool-cases (has_prefix (text "[") (c ∷ cs))) [
      | inl b ↦ rw b i
      | inr b ↦ rw b (
          with_conn-Kept (c ∷ cs) (connection_for_domain ops rt w (c ∷ cs) rd)
            (connect_domain-Kept (c ∷ cs) rd (lookup (c ∷ cs) rd.connections) refl i))
    ]

    rcpt_parts-Kept :
        (rd : Rd G) (o : Result Err (Text × Text)) → I rd → KeptAdded (rcpt_parts ops rt w to rd o)
    unfolding rcpt_parts
    rcpt_parts-Kept rd (err e) i = i
    rcpt_parts-Kept rd (ok (mailbox, domain)) i = rcpt_domain-Kept rd domain i

    rcpt_unless-Kept : (b : Bool) (rd : Rd G) → I rd → KeptAdded (rcpt_unless ops rt w b to rd)
    unfolding rcpt_unless
    rcpt_unless-Kept true rd i = i
    rcpt_unless-Kept false rd i = rcpt_parts-Kept rd (split to) i

    pub add_rcpt-Kept : (rd : Rd G) → I rd → KeptAdded (add_rcpt ops rt w to rd)
    unfolding add_rcpt
    add_rcpt-Kept rd i = rcpt_unless-Kept rd.msg_meta.quarantine rd i
