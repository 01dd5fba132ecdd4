-- ===== src/Remote/Delivery/Required.antt =====
-- With REQUIRETLS, the connections of a delivery are authenticated.
use sirr_mesh.Base.{
  ◌≡◌, ◌≤◌, sym, subst, true, not, ◌&&◌, Option, none, some, Bool-cases, inl, inr, arith, Text,
  Result, ok, err,
}
use sirr_mesh.Exterrors.{Error}
use sirr_mesh.Limits.Limiters.{Taken, took, refused, panicked}
use sirr_mesh.Remote.Connect.{require_levels}
use sirr_mesh.Remote.Mx.{Conn}
use sirr_mesh.Remote.Client.{send_mail}
use sirr_mesh.Remote.Delivery.Steps.{
  AllConns, AllConns-insert, AllConns-lookup, Kept, KeptAdded, StepsKeep, add_rcpt-Kept,
}
use sirr_mesh.Remote.Client.Accepted.{SentOn}
use sirr_mesh.Remote.Start.{LimitOps, Target, Rd, World}
use sirr_mesh.Remote.Delivery.{mailed, relax, dest_taken, Outcome, Added, rcpt_sent, add_rcpt}

abbrev pub Authentic : Conn → Type 0
Authentic c = (2 ≤ c.tls_level) × (1 ≤ c.mx_level)

require_levels-Authentic :
    (c : Conn) → require_levels true c.tls_level c.mx_level ≡ none → Authentic c
unfolding require_levels
require_levels-Authentic c h = (ground (arith, h), ground (arith, h))

-- While the message asks for it.
abbrev pub Secure : {G : Type 0} → Rd G → Type 0
Secure rd = rd.msg_meta.require_tls ≡ true → AllConns Authentic rd.connections

module _ {G : Type 0} (ops : LimitOps G) (rt : Target) (w : World) (to : Text) where
  abbrev SecureConn : Rd G → Conn → Type 0
  SecureConn rd c = rd.msg_meta.require_tls ≡ true → Authentic c

  abbrev SecureOutcome : Text → Option (Outcome ops rt w) → Type 0
  SecureOutcome = Kept ops rt w to Secure (λ domain c. Unit {0}) (λ domain. SecureConn)

  mailed-Secure :
      (domain : Text) (rd : Rd G) (c : Conn) (o : Option Error)
      → Secure rd
      → SecureConn rd c
      → SecureOutcome domain (some (mailed ops rt w domain rd c o))
  unfolding mailed
  mailed-Secure domain rd c (some e) s a = s
  mailed-Secure domain rd c none s a = (
    λ r.
        AllConns-insert Authentic domain (record c { last_use_at = w.now }) rd.connections (a r)
          (s r),
    a,
  )

  relax-Secure :
      (c d : Conn) (rd : Rd G)
      → Secure rd
      → SecureConn rd d
      → Secure (relax ops rt w c rd) × SecureConn (relax ops rt w c rd) d
  relax-Secure c d rd s a =
      elim (Bool-cases (rt.relaxed_requiretls && not (w.server.requiretls c))) [
        | inl e ↦ rw e (λ r. absurd (ground (arith, r)), λ r. absurd (ground (arith, r)))
        | inr e ↦ rw e (s, a)
      ]

  dest_taken-Secure :
      (domain : Text) (rd : Rd G) (c : Conn) (t : Taken G)
      → Secure rd
      → SecureConn rd c
      → SecureOutcome domain (dest_taken ops rt w domain rd c t)
  unfolding dest_taken
  dest_taken-Secure domain rd c (took g) s a =
      let rd₁ = relax ops rt w c (record rd { limits = g }) in
      let (s₁, a₁) = relax-Secure c c (record rd { limits = g }) s a in
      mailed-Secure domain rd₁ c (send_mail w.server c rd₁.msg_meta.utf8 rd₁.mail_from) s₁ a₁
  dest_taken-Secure domain rd c (refused d g) s a = s
  dest_taken-Secure domain rd c panicked s a = tt

  abbrev SecureAdded : Option (Added ops rt w) → Type 0
  SecureAdded = KeptAdded ops rt w to Secure (λ domain c. Unit {0}) (λ domain. SecureConn)

  rcpt_sent-Secure :
      (domain : Text) (rd : Rd G) (c : Conn) (o : Result Error Conn)
      → SentOn w.server c to o
      → Secure rd
      → SecureConn rd c
      → SecureAdded (some (rcpt_sent ops rt w to domain rd o))
  unfolding rcpt_sent
  rcpt_sent-Secure domain rd c (err e) h s a = s
  rcpt_sent-Secure domain rd c (ok d) (sent, e, u) s a = λ r.
      AllConns-insert Authentic domain (record d { last_use_at = w.now }) rd.connections
        (subst Authentic (sym e) (a r)) (s r)

  Secure-StepsKeep : StepsKeep ops rt w to Secure (λ domain c. Unit {0}) (λ domain. SecureConn)
  Secure-StepsKeep = record {
    known = λ domain rd c s e. λ r. AllConns-lookup Authentic domain c rd.connections e (s r);
    pool_kept = λ domain rd s. s;
    pooled = λ domain rd c s e. tt;
    fresh = λ n domain c e. tt;
    shut = λ rd c s. s;
    taken = λ domain rd c t s n a h e. dest_taken-Secure domain rd c t s (λ r.
        require_levels-Authentic c
          (subst (λ b. require_levels b c.tls_level c.mx_level ≡ none) r h));
    sent = λ domain rd c o s a h. rcpt_sent-Secure domain rd c o h s a;
  }

  -- If the connections of a delivery are all authenticated while its message asks for REQUIRETLS, by TLS and
  -- by their MX, that is so after `AddRcpt`, whatever the network answers, and for a connection of
  -- the pool as for a new one.
  pub add_rcpt-Secure :
      (rd rd' : Rd G) (e : Option Error)
      → Secure rd
      → add_rcpt ops rt w to rd ≡ some (rd', e)
      → Secure rd'
  add_rcpt-Secure rd rd' e s h = subst SecureAdded h (
      add_rcpt-Kept ops rt w to Secure (λ domain c. Unit {0}) (λ domain. SecureConn)
        Secure-StepsKeep rd s)
