-- ===== src/Remote/Delivery/Balance.antt =====
-- The slots that a delivery takes from the limits, as they are recorded.
use sirr_mesh.Base.{
  ℕ, ◌+◌, ◌≡◌, refl, ap, ◌∙◌, subst, Bool, true, false, not, ◌&&◌, Option, none, some, List, [],
  ◌∷◌, All, Bool-cases, inl, inr, arith, ltb, if◌then◌else◌, Text, text_eq, text_eq_refl,
  text_eq_iff, Map, lookup, insert, lookup-insert, Result, ok, err,
}
use sirr_mesh.Exterrors.{Error}
use sirr_mesh.Limits.Limiters.{Denied, context_done, Taken, took, refused, panicked}
use sirr_mesh.Remote.Pool.Weights.{weigh}
use sirr_mesh.Remote.Pool.Held.{HeldPool, get-Held}
use sirr_mesh.Remote.Mx.{Conn}
use sirr_mesh.Remote.Mx.Domain.{new_conn-domain}
use sirr_mesh.Remote.Client.{send_mail}
use sirr_mesh.Remote.Client.Accepted.{SentOn}
use sirr_mesh.Remote.Start.{LimitOps, Target, Rd, World, pool_config}
use sirr_mesh.Remote.Delivery.{mailed, dest_taken, Outcome, rcpt_sent, add_rcpt}
use sirr_mesh.Remote.Delivery.Steps.{Kept, KeptAdded, StepsKeep, add_rcpt-Kept}

-- A slot for a message, by its address and domain, or for a destination.
pub data Share : Type 0 where
  for_msg : Text → Text → Share
  for_dest : Text → Share

pub record Log : Type 0 where
  pub log_taken : List Share
  pub log_released : List Share

abbrev log_take : Bool → Share → Log → Taken Log
log_take true x g = took (record g { log_taken = x ∷ g.log_taken })
log_take false x g = refused context_done g

-- Is it the same slot?
abbrev pub is_share : Share → Share → Bool
is_share (for_msg a d) (for_msg b e) = text_eq a b && text_eq d e
is_share (for_dest d) (for_dest e) = text_eq d e
is_share _ _ = false

pub is_share_refl : (x : Share) → is_share x x ≡ true
is_share_refl (for_msg a d) = rw (text_eq_refl a, text_eq_refl d) refl
is_share_refl (for_dest d) = text_eq_refl d

abbrev pub one_of : Share → Share → ℕ
one_of x y = if is_share x y then 1 else 0

-- Was the slot taken more often than it was released?
unfoldable pub is_held : Share → Log → Bool
is_held x g = ltb (weigh (one_of x) g.log_released) (weigh (one_of x) g.log_taken)

-- The release of a slot that is not held panics.
abbrev log_release : Share → Log → Option Log
log_release x g =
    if is_held x g then some (record g { log_released = x ∷ g.log_released }) else none

-- Limits that record what is taken and released, allow what `allow` says, and panic when a slot is
-- released that is not held.
abbrev pub recorder : (Share → Log → Bool) → LimitOps Log
recorder allow = record {
  op_take_msg = λ a d g. log_take (allow (for_msg a d) g) (for_msg a d) g;
  op_take_dest = λ d g. log_take (allow (for_dest d) g) (for_dest d) g;
  op_release_msg = λ a d g. log_release (for_msg a d) g;
  op_release_dest = λ d g. log_release (for_dest d) g;
}

-- Each connection is under its domain.
abbrev pub Homes : Map Conn → Type 0
Homes conns = All (λ e. e.1.domain ≡ e.0) conns

Homes-insert :
    (k : Text) (c : Conn) (conns : Map Conn) → c.domain ≡ k → Homes conns → Homes (insert k c conns)
unfolding insert
Homes-insert k c [] h t = (h, tt)
Homes-insert k c ((j, d) ∷ conns) h t = elim (Bool-cases (text_eq j k)) [
  | inl e ↦ rw e (h, t.1)
  | inr e ↦ rw e (t.0, Homes-insert k c conns h t.1)
]

Homes-lookup :
    (k : Text) (c : Conn) (conns : Map Conn) → lookup k conns ≡ some c → Homes conns → c.domain ≡ k
unfolding lookup
Homes-lookup k c [] e t = absurd (ground (arith, e))
Homes-lookup k c ((j, d) ∷ conns) e t = elim (Bool-cases (text_eq j k)) [
  | inl b ↦ subst (λ x. x.domain ≡ k) {x = d} {y = c} (cc (rw b at e)) (t.0 ∙ (text_eq_iff j k).0 b)
  | inr b ↦ Homes-lookup k c conns (rw b at e) t.1
]

module _ (w : Share → ℕ) where
  -- What the connections are to release.
  abbrev pub owed : Map Conn → ℕ
  owed [] = 0
  owed ((k, c) ∷ conns) = w (for_dest c.domain) + owed conns

  abbrev owed_by : Option Conn → ℕ
  owed_by none = 0
  owed_by (some c) = w (for_dest c.domain)

  owed-insert :
      (k : Text) (c : Conn) (conns : Map Conn)
      → owed (insert k c conns) + owed_by (lookup k conns) ≡ w (for_dest c.domain) + owed conns
  unfolding insert lookup
  owed-insert k c [] = omega arith
  owed-insert k c ((j, d) ∷ conns) = elim (Bool-cases (text_eq j k)) [
    | inl e ↦ rw e (omega arith)
    | inr e ↦ rw e (omega (arith, owed-insert k c conns))
  ]

  -- Everything taken is released, to be released by a connection, or `n`.
  abbrev pub Owes : ℕ → Rd Log → Type 0
  Owes n rd =
      (weigh w rd.limits.log_taken ≡ weigh w rd.limits.log_released + owed rd.connections + n)
      × Homes rd.connections
      × HeldPool (λ k c. c.domain ≡ k) rd.pool

module _ (allow : Share → Log → Bool) (rt : Target) (w : Share → ℕ) (n : ℕ) where
  abbrev InUse : Text → Rd Log → Conn → Type 0
  InUse domain rd c = lookup domain rd.connections ≡ some c

  abbrev At : Text → Conn → Type 0
  At domain c = c.domain ≡ domain

  module _ (world : World) (to : Text)
      (mail_ok : (c : Conn) (utf8 : Bool) (from : Text)
        → send_mail world.server c utf8 from ≡ none) where
    abbrev KeptOwes : Text → Option (Outcome (recorder allow) rt world) → Type 0
    KeptOwes = Kept (recorder allow) rt world to (Owes w n) At InUse

    mailed-Owes :
        (domain : Text) (rd : Rd Log) (c : Conn) (o : Option Error)
        → o ≡ none
        → Owes w (w (for_dest domain) + n) rd
        → lookup domain rd.connections ≡ none
        → At domain c
        → KeptOwes domain (some (mailed (recorder allow) rt world domain rd c o))
    unfolding mailed
    mailed-Owes domain rd c (some e) z i no_conn a = absurd (ground (arith, z))
    mailed-Owes domain rd c none z (sum, homes, pool) no_conn a =
        let used = record c { last_use_at = world.now } in
        (
          (
            omega (
              arith,
              sum,
              owed-insert w domain used rd.connections,
              ap (owed_by w) no_conn,
              ap (λ d. w (for_dest d)) a,
            ),
            Homes-insert domain used rd.connections a homes,
            pool,
          ),
          rw (lookup-insert domain domain used rd.connections, text_eq_refl domain) refl,
        )

    took-Owes :
        (domain : Text) (rd : Rd Log) (g : Log)
        → log_take (allow (for_dest domain) rd.limits) (for_dest domain) rd.limits ≡ took g
        → Owes w n rd
        → Owes w (w (for_dest domain) + n) (record rd { limits = g })
    took-Owes domain rd g e (sum, homes, pool) =
        elim (Bool-cases (allow (for_dest domain) rd.limits)) [
          | inr b ↦ absurd (ground (arith, (rw b at e)))
          | inl b ↦ (
            subst
                (λ l.
                  weigh w l.log_taken
                  ≡ weigh w l.log_released + owed w rd.connections + (w (for_dest domain) + n))
                {x = record (rd.limits) { log_taken = for_dest domain ∷ rd.limits.log_taken }}
                {y = g} (cc (rw b at e)) (omega (arith, sum)),
            homes,
            pool,
          )
        ]

    refused-Owes :
        (domain : Text) (rd : Rd Log) (d : Denied) (g : Log)
        → log_take (allow (for_dest domain) rd.limits) (for_dest domain) rd.limits ≡ refused d g
        → rd.limits ≡ g
    refused-Owes domain rd d g e = elim (Bool-cases (allow (for_dest domain) rd.limits)) [
      | inl b ↦ absurd (ground (arith, (rw b at e)))
      | inr b ↦ cc (rw b at e)
    ]

    dest_taken-Owes :
        (domain : Text) (rd : Rd Log) (c : Conn) (t : Taken Log)
        → log_take (allow (for_dest domain) rd.limits) (for_dest domain) rd.limits ≡ t
        → Owes w n rd
        → lookup domain rd.connections ≡ none
        → At domain c
        → KeptOwes domain (dest_taken (recorder allow) rt world domain rd c t)
    unfolding dest_taken
    dest_taken-Owes domain rd c (took g) e i no_conn a =
        let i₁ = took-Owes domain rd g e i in
        elim (Bool-cases (rt.relaxed_requiretls && not (world.server.requiretls c))) [
          | inl b ↦ rw b (mailed-Owes domain _ c _ (mail_ok c _ _) i₁ no_conn a)
          | inr b ↦ rw b (mailed-Owes domain _ c _ (mail_ok c _ _) i₁ no_conn a)
        ]
    dest_taken-Owes domain rd c (refused d g) e i no_conn a =
        subst (λ l. Owes w n (record rd { limits = l })) (refused-Owes domain rd d g e) i
    dest_taken-Owes domain rd c panicked e i no_conn a = tt

    rcpt_sent-Owes :
        (domain : Text) (rd : Rd Log) (c : Conn) (o : Result Error Conn)
        → SentOn world.server c to o
        → Owes w n rd
        → InUse domain rd c
        → KeptAdded
            (recorder allow)
            rt
            world
            to
            (Owes w n)
            At
            InUse
            (some (rcpt_sent (recorder allow) rt world to domain rd o))
    unfolding rcpt_sent
    rcpt_sent-Owes domain rd c (err e) h i u = i
    rcpt_sent-Owes domain rd c (ok d) (sent, e, same) (sum, homes, pool) u =
        let used = record d { last_use_at = world.now } in
        let home = ap (λ x. x.domain) e ∙ Homes-lookup domain c rd.connections u homes in
        (
          omega (
            arith,
            sum,
            owed-insert w domain used rd.connections,
            ap (owed_by w) u,
            ap (λ x. w (for_dest x.domain)) e,
          ),
          Homes-insert domain used rd.connections home homes,
          pool,
        )

    Owes-StepsKeep : StepsKeep (recorder allow) rt world to (Owes w n) At InUse
    Owes-StepsKeep = record {
      known = λ domain rd c i e. e;
      pool_kept = λ domain rd i. (
        i.0,
        i.1,
        (get-Held (pool_config rt world.server) At (λ key. refl) world.now domain rd.pool i.2).0,
      );
      pooled = λ domain rd c i e.
          (get-Held (pool_config rt world.server) At (λ key. refl) world.now domain rd.pool i.2).1 c
            e;
      fresh = λ net domain c e. new_conn-domain net world.now rt.conn_reuse_limit domain c e;
      shut = λ rd c i. i;
      taken = λ domain rd c t i none_known a h e. dest_taken-Owes domain rd c t e i none_known a;
      sent = λ domain rd c o i u h. rcpt_sent-Owes domain rd c o h i u;
    }

    pub add_rcpt-Owes :
        (rd rd' : Rd Log) (e : Option Error)
        → Owes w n rd
        → add_rcpt (recorder allow) rt world to rd ≡ some (rd', e)
        → Owes w n rd'
    add_rcpt-Owes rd rd' e i h =
        subst (KeptAdded (recorder allow) rt world to (Owes w n) At InUse) h
          (add_rcpt-Kept (recorder allow) rt world to (Owes w n) At InUse Owes-StepsKeep rd i)
