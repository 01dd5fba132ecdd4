-- ===== src/Remote/Sending/Finished.antt =====
-- What `BodyNonAtomic` and `Close` leave of the slots.
use sirr_mesh.Base.{
  ℕ, ◌+◌, ◌≡◌, refl, sym, subst, ap, ◌∙◌, Bool, true, false, Option, none, some, [], ◌∷◌,
  Bool-cases, inl, inr, arith, Text, Map, Result, ok, err,
}
use sirr_mesh.Exterrors.{Error}
use sirr_mesh.Address.Errors.{Err}
use sirr_mesh.Remote.Pool.Weights.{weigh}
use sirr_mesh.Remote.Mx.{Conn}
use sirr_mesh.Remote.Client.{Server, conn_usable}
use sirr_mesh.Remote.Start.{Target, Rd, source_addr, ratelimit_domain}
use sirr_mesh.Remote.Delivery.Balance.{
  Share, for_msg, for_dest, Log, is_share, is_share_refl, one_of, is_held, recorder, owed,
}
use sirr_mesh.Remote.Sending.{
  sent_on, send_on, send_all, body_unless, body_non_atomic, give_back, released, close_conns,
  with_limits, close_msg, close,
}

-- Do two states of a delivery agree on the message and on the limits?
abbrev Agree : Rd Log → Rd Log → Type 0
Agree a b = (a.mail_from ≡ b.mail_from) × (a.msg_meta ≡ b.msg_meta) × (a.limits ≡ b.limits)

module _ (s : Server) (opens : Conn → Option Error) (now : ℕ) where
  sent_on-domain : (c : Conn) (o : Option Error) → (sent_on s opens now c o).0.domain ≡ c.domain
  unfolding sent_on
  sent_on-domain c none = refl
  sent_on-domain c (some e) = refl

  module _ (w : Share → ℕ) where
    send_all-owed : (conns : Map Conn) → owed w (send_all s opens now conns).0 ≡ owed w conns
    unfolding send_all send_on
    send_all-owed [] = refl
    send_all-owed ((k, c) ∷ conns) =
        omega (arith, send_all-owed conns, ap (λ d. w (for_dest d)) (sent_on-domain c (opens c)))

    body_unless-owed :
        (b : Bool) (rd : Rd Log)
        → Agree (body_unless s opens now b rd).0 rd
          × (owed w (body_unless s opens now b rd).0.connections ≡ owed w rd.connections)
    unfolding body_unless
    body_unless-owed true rd = ((refl, refl, refl), refl)
    body_unless-owed false rd = ((refl, refl, refl), send_all-owed rd.connections)

    pub body-owed :
        (rd : Rd Log)
        → Agree (body_non_atomic s opens now rd).0 rd
          × (owed w (body_non_atomic s opens now rd).0.connections ≡ owed w rd.connections)
    unfolding body_non_atomic
    body-owed rd = body_unless-owed rd.msg_meta.quarantine rd

module _ (allow : Share → Log → Bool) (rt : Target) (s : Server) (now : ℕ) where
  give_back-Agree : (c : Conn) (rd : Rd Log) → Agree (give_back (recorder allow) rt s now c rd) rd
  unfolding give_back
  give_back-Agree c rd =
      elim (Bool-cases (conn_usable s (record c { transactions = c.transactions + 1 }))) [
        | inl b ↦ rw b (refl, refl, refl)
        | inr b ↦ rw b (refl, refl, refl)
      ]

  -- What the connections are to release is held, and so is what `rest` says beyond it.
  abbrev Covers : Map Conn → ((Share → ℕ) → ℕ) → Log → Type 0
  Covers conns rest g =
      (v : Share → ℕ) → weigh v g.log_taken ≡ weigh v g.log_released + owed v conns + rest v

  Covers-is_held :
      (k : Text) (c : Conn) (conns : Map Conn) (rest : (Share → ℕ) → ℕ) (g : Log)
      → Covers ((k, c) ∷ conns) rest g
      → is_held (for_dest c.domain) g ≡ true
  unfolding is_held
  Covers-is_held k c conns rest g h =
      ground (arith, h (one_of (for_dest c.domain)), one (is_share_refl (for_dest c.domain)))
    where
      one :
          is_share (for_dest c.domain) (for_dest c.domain) ≡ true
          → one_of (for_dest c.domain) (for_dest c.domain) ≡ 1
      one e = rw e refl

  close_conns-Freed :
      (conns : Map Conn) (rest : (Share → ℕ) → ℕ) (rd : Rd Log)
      → Covers conns rest rd.limits
      → (rd' : Rd Log) × (close_conns (recorder allow) rt s now conns rd ≡ some rd')
        × (rd'.mail_from ≡ rd.mail_from)
        × (rd'.msg_meta ≡ rd.msg_meta)
        × Covers [] rest rd'.limits
  unfolding close_conns released
  close_conns-Freed [] rest rd h = (rd, refl, refl, refl, h)
  close_conns-Freed ((k, c) ∷ conns) rest rd h =
      let start = record rd {
        limits = record (rd.limits) { log_released = for_dest c.domain ∷ rd.limits.log_released };
      } in
      let back = give_back (recorder allow) rt s now c start in
      let (from, meta, limits) = give_back-Agree c start in
      let (rd', e, from', meta', covers) =
        close_conns-Freed conns rest back
          (subst (Covers conns rest) (sym limits) (λ v. omega (arith, h v))) in
      (rd', rw (Covers-is_held k c conns rest rd.limits h) e, from' ∙ from, meta' ∙ meta, covers)

  abbrev msg_freed : Rd Log → Text → Rd Log
  msg_freed rd domain = record rd {
    limits = record (rd.limits) {
      log_released = for_msg (source_addr rd.msg_meta) domain ∷ rd.limits.log_released;
    };
  }

  close_msg-released :
      (rd : Rd Log) (o : Result Err Text) (domain : Text)
      → o ≡ ok domain
      → is_held (for_msg (source_addr rd.msg_meta) domain) rd.limits ≡ true
      → close_msg (recorder allow) rt s now rd o ≡ some (msg_freed rd domain, none)
  unfolding close_msg with_limits
  close_msg-released rd (err e) domain h held = absurd (ground (arith, h))
  close_msg-released rd (ok d) domain h held =
      let same : d ≡ domain = cc h in rw same (rw held refl)

  msg-is_held : (x : Share) (g : Log) → Covers [] (λ v. v x) g → is_held x g ≡ true
  unfolding is_held
  msg-is_held x g h = ground (arith, h (one_of x), one (is_share_refl x))
    where
      one : is_share x x ≡ true → one_of x x ≡ 1
      one e = rw e refl

  pub close-Owes :
      (rd : Rd Log) (domain : Text)
      → ratelimit_domain rd.mail_from ≡ ok domain
      → ((v : Share → ℕ)
          → weigh v rd.limits.log_taken
            ≡ weigh v rd.limits.log_released
              + owed v rd.connections
              + v (for_msg (source_addr rd.msg_meta) domain))
      → (rd' : Rd Log) × (close (recorder allow) rt s now rd ≡ some (rd', none))
        × ((v : Share → ℕ) → weigh v rd'.limits.log_taken ≡ weigh v rd'.limits.log_released)
  unfolding close
  close-Owes rd domain h sum =
      let x = for_msg (source_addr rd.msg_meta) domain in
      let (rd₁, e, from, meta, covers) = close_conns-Freed rd.connections (λ v. v x) rd sum in
      let covers₁ : Covers [] (λ v. v (for_msg (source_addr rd₁.msg_meta) domain)) rd₁.limits = λ v.
        covers v
        ∙ ap (λ m. weigh v rd₁.limits.log_released + 0 + v (for_msg (source_addr m) domain))
            (sym meta) in
      (
        msg_freed rd₁ domain,
        rw e (
            close_msg-released rd₁ (ratelimit_domain rd₁.mail_from) domain
              (ap ratelimit_domain from ∙ h)
              (msg-is_held (for_msg (source_addr rd₁.msg_meta) domain) rd₁.limits covers₁)),
        λ v. omega (arith, covers₁ v),
      )
