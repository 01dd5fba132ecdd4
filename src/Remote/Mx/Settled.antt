-- ===== src/Remote/Mx/Settled.antt =====
-- What a connection that `newConn` opens has passed.
use sirr_mesh.Base.{
  ℕ, ◌≡◌, refl, sym, subst, ◌++◌, append_assoc, Bool, true, false, Option, none, some, List, [],
  ◌∷◌, ap, ◌∙◌, Bool-cases, inl, inr, arith, text_eq, Text, text, Result, ok, err,
}
use sirr_mesh.Exterrors.{Error}
use sirr_mesh.Remote.Policy.{Policy}
use sirr_mesh.Remote.Connect.{Connected, MxConn, attempt_mx, mx_levels, connect, require_levels}
use sirr_mesh.Remote.Connect.Met.{Met, attempt_mx-Met}
use sirr_mesh.Remote.Mx.{
  Mx, Conn, Network, Attempts, lookup_mx, first_mode, client_unless, client_after_connect,
  client_after_mx, client_after, opened, failed_with, next_record, try_records, bail_out,
  after_records, fresh_conn, no_attempts, with_records, new_conn,
}

-- The connection is for the domain, and there is a record of the answer of the lookup for the domain,
-- with the DNSSEC status that the connection has, that has a host and whose attempt gave the levels of
-- the connection.
abbrev pub Settled : Network → Text → Conn → Type 0
Settled n domain c =
    (before after : List Mx) × (r : Mx) × (x : MxConn) × (c.domain ≡ domain)
    × (lookup_mx n domain ≡ ok (c.dnssec_ok, before ++ (r ∷ after)))
    × (text_eq r.host (text ".") ≡ false)
    × (attempt_mx (n.dial r.host) (n.policies c.domain r.host) r.host c.dnssec_ok ≡ ok x)
    × Met (n.policies c.domain r.host) r.host false x
    × (c.mx_level ≡ x.mx_level)
    × (c.tls_level ≡ x.tls_level)
    × (c.rcpts ≡ [])

module _ (n : Network) (quits : (mx : Text) → n.quits mx ≡ true) where
  client_unless-false : (o : Option Error) → client_unless false o ≡ false
  unfolding client_unless
  client_unless-false none = refl
  client_unless-false (some e) = refl

  client_after_connect-quits :
      (mx : Text) (o : Result Error Connected) → client_after_connect n mx false o ≡ false
  unfolding client_after_connect
  client_after_connect-quits mx (ok c) = rw (quits mx) refl
  client_after_connect-quits mx (err e) =
      client_unless-false ((n.dial mx).dialed (first_mode (n.dial mx).has_config)).connect_err

  client_after_mx-quits : (mx : Text) (o : Result Error ℕ) → client_after_mx n mx false o ≡ false
  unfolding client_after_mx
  client_after_mx-quits mx (err e) = refl
  client_after_mx-quits mx (ok level) = client_after_connect-quits mx (connect (n.dial mx))

  client_after-quits :
      (ps : List Policy) (mx : Text) (ad : Bool) → client_after n ps mx ad false ≡ false
  unfolding client_after
  client_after-quits ps mx ad = client_after_mx-quits mx (mx_levels mx ad ps 0)

  -- In the loop: no client yet, or a connection that is settled.
  abbrev Open : Text → Result Error Attempts → Type 0
  Open domain (err e) = Unit {0}
  Open domain (ok a) = a.conn.client ≡ true → Settled n domain a.conn

  next_record-Open :
      (domain : Text) (o : Result Error MxConn) (again : Error → Result Error Attempts)
      (a : Attempts)
      → ((x : MxConn) → o ≡ ok x → Settled n domain (opened x a).conn)
      → ((e : Error) → Open domain (again e))
      → Open domain (next_record o again a)
  unfolding next_record
  next_record-Open domain (ok x) again a good bad = λ t. good x refl
  next_record-Open domain (err e) again a good bad = bad e

  opened-Settled :
      (before after : List Mx) (r : Mx) (a : Attempts) (x : MxConn)
      → lookup_mx n a.conn.domain ≡ ok (a.conn.dnssec_ok, before ++ (r ∷ after))
      → text_eq r.host (text ".") ≡ false
      → a.conn.rcpts ≡ []
      → attempt_mx (n.dial r.host) (n.policies a.conn.domain r.host) r.host a.conn.dnssec_ok ≡ ok x
      → Settled n a.conn.domain (opened x a).conn
  unfolding require_levels
  opened-Settled before after r a x found b e h = (
    before,
    after,
    r,
    x,
    refl,
    found,
    b,
    h,
    attempt_mx-Met (n.dial r.host) (n.policies a.conn.domain r.host) r.host a.conn.dnssec_ok false h
        refl,
    refl,
    refl,
    e,
  )

  try_records-Open :
      (before records : List Mx) (a : Attempts)
      → lookup_mx n a.conn.domain ≡ ok (a.conn.dnssec_ok, before ++ records)
      → a.conn.client ≡ false
      → a.conn.rcpts ≡ []
      → Open a.conn.domain (try_records n a.conn.domain records a)
  unfolding try_records
  try_records-Open before [] a found c e = λ t. absurd (ground (arith, c, t))
  try_records-Open before (r ∷ rs) a found c e =
      let ps = n.policies a.conn.domain r.host in
      let ad = a.conn.dnssec_ok in
      let left = client_after n ps r.host ad a.conn.client in
      let off = ap (client_after n ps r.host ad) c ∙ client_after-quits ps r.host ad in
      elim (Bool-cases (text_eq r.host (text "."))) [
        | inl b ↦ rw b tt
        | inr b ↦ rw b (
            next_record-Open a.conn.domain (attempt_mx (n.dial r.host) ps r.host ad)
              (λ e'. try_records n a.conn.domain rs (failed_with e' left a)) a
              (λ x h. opened-Settled before rs r a x found b e h)
              (λ e'.
                try_records-Open (before ++ (r ∷ [])) rs (failed_with e' left a)
                  (found
                    ∙ ap (λ l. ok (a.conn.dnssec_ok, l)) (sym (append_assoc before (r ∷ []) rs)))
                  off e))
      ]

  abbrev Opens : Text → Option (Result Error Conn) → Type 0
  Opens domain (some (ok c)) = Settled n domain c
  Opens domain _ = Unit {0}

  bail_out-Opens :
      (domain : Text) (b : Bool) (a : Attempts) (e : Option Error)
      → (b ≡ true → Settled n domain a.conn)
      → Opens domain (bail_out b a e)
  unfolding bail_out
  bail_out-Opens domain true a e h = h refl
  bail_out-Opens domain false a none h = tt
  bail_out-Opens domain false a (some e) h = tt

  after_records-Opens :
      (domain : Text) (o : Result Error Attempts) → Open domain o → Opens domain (after_records o)
  unfolding after_records
  after_records-Opens domain (err e) h = tt
  after_records-Opens domain (ok a) h = bail_out-Opens domain a.conn.client a a.last_err h

  with_records-Opens :
      (now limit : ℕ) (domain : Text) (o : Result Error (Bool × List Mx))
      → lookup_mx n domain ≡ o
      → Opens domain (with_records n now limit domain o)
  unfolding with_records
  with_records-Opens now limit domain (err e) found = tt
  with_records-Opens now limit domain (ok (ad, records)) found =
      let start = no_attempts (fresh_conn now limit domain ad) in
      after_records-Opens domain (try_records n domain records start)
        (try_records-Open [] records start found refl refl)

  -- If QUIT succeeds on every server, a connection that `newConn` opens for a domain is to a record with
  -- a host, one of those that the lookup for the domain gives with the DNSSEC status that the connection
  -- keeps. The attempt at it met every policy of the message for the domain, and the connection has the
  -- levels of that attempt and no recipients.
  pub new_conn-Settled :
      (now limit : ℕ) (domain : Text) (c : Conn)
      → new_conn n now limit domain ≡ some (ok c)
      → Settled n domain c
  unfolding new_conn
  new_conn-Settled now limit domain c h =
      subst (Opens domain) h (with_records-Opens now limit domain (lookup_mx n domain) refl)
