-- ===== src/Remote/Delivery/Same.antt =====
-- What `AddRcpt` does not change: the sender and the address that the limits know the message by.
use sirr_mesh.Base.{
  ◌≡◌, subst, not, ◌&&◌, Option, none, some, Bool-cases, inl, inr, Text, Result, ok, err,
}
use sirr_mesh.Exterrors.{Error}
use sirr_mesh.Limits.Limiters.{Taken, took, refused, panicked}
use sirr_mesh.Remote.Mx.{Conn}
use sirr_mesh.Remote.Start.{LimitOps, Target, Rd, World, source_addr}
use sirr_mesh.Remote.Delivery.{mailed, dest_taken, Outcome, rcpt_sent, add_rcpt}
use sirr_mesh.Remote.Delivery.Steps.{Kept, KeptAdded, StepsKeep, add_rcpt-Kept}

module _ {G : Type 0} (ops : LimitOps G) (rt : Target) (w : World) (to from addr : Text) where
  abbrev pub Same : Rd G → Type 0
  Same rd = (rd.mail_from ≡ from) × (source_addr rd.msg_meta ≡ addr)

  abbrev KeptSame : Text → Option (Outcome ops rt w) → Type 0
  KeptSame = Kept ops rt w to Same (λ d c. Unit {0}) (λ d rd c. Unit {0})

  mailed-Same :
      (d : Text) (rd : Rd G) (c : Conn) (o : Option Error)
      → Same rd
      → KeptSame d (some (mailed ops rt w d rd c o))
  unfolding mailed
  mailed-Same d rd c none i = (i, tt)
  mailed-Same d rd c (some e) i = i

  dest_taken-Same :
      (d : Text) (rd : Rd G) (c : Conn) (t : Taken G)
      → Same rd
      → KeptSame d (dest_taken ops rt w d rd c t)
  unfolding dest_taken
  dest_taken-Same d rd c (took g) i =
      elim (Bool-cases (rt.relaxed_requiretls && not (w.server.requiretls c))) [
        | inl b ↦ rw b (mailed-Same d _ c _ i)
        | inr b ↦ rw b (mailed-Same d _ c _ i)
      ]
  dest_taken-Same d rd c (refused r g) i = i
  dest_taken-Same d rd c panicked i = tt

  rcpt_sent-Same :
      (d : Text) (rd : Rd G) (o : Result Error Conn)
      → Same rd
      → Same (rcpt_sent ops rt w to d rd o).0
  unfolding rcpt_sent
  rcpt_sent-Same d rd (err e) i = i
  rcpt_sent-Same d rd (ok c) i = i

  Same-StepsKeep : StepsKeep ops rt w to Same (λ d c. Unit {0}) (λ d rd c. Unit {0})
  Same-StepsKeep = record {
    known = λ d rd c i e. tt;
    pool_kept = λ d rd i. i;
    pooled = λ d rd c i e. tt;
    fresh = λ n d c e. tt;
    shut = λ rd c i. i;
    taken = λ d rd c t i n a h e. dest_taken-Same d rd c t i;
    sent = λ d rd c o i u h. rcpt_sent-Same d rd o i;
  }

  pub add_rcpt-Same :
      (rd rd' : Rd G) (e : Option Error)
      → Same rd
      → add_rcpt ops rt w to rd ≡ some (rd', e)
      → Same rd'
  add_rcpt-Same rd rd' e i h =
      subst (KeptAdded ops rt w to Same (λ d c. Unit {0}) (λ d rd c. Unit {0})) h
        (add_rcpt-Kept ops rt w to Same (λ d c. Unit {0}) (λ d rd c. Unit {0}) Same-StepsKeep rd i)
