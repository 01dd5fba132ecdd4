-- ===== src/Remote/Mx/Answers.antt =====
-- `newConn` returns: `lastErr` is set when no record gave a connection.
use sirr_mesh.Base.{
  ℕ, ◌≡◌, refl, ◌⊎◌, inl, inr, Bool, true, false, Option, none, some, List, [], ◌∷◌, Bool-cases,
  arith, text_eq, Text, text, Result, ok, err,
}
use sirr_mesh.Exterrors.{Error}
use sirr_mesh.Remote.Connect.{MxConn, attempt_mx}
use sirr_mesh.Remote.Mx.{
  Mx, Conn, Network, Attempts, lookup_mx, looked_up, domain_mx, or_domain, sort_records,
  client_after, failed_with, next_record, try_records, bail_out, after_records, fresh_conn,
  no_attempts, with_records, new_conn,
}

-- A loop over some records fails, opens a client or has a last error.
abbrev Ended : Result Error Attempts → Type 0
Ended (err e) = Unit {0}
Ended (ok a) = (a.conn.client ≡ true) ⊎ ((e : Error) × (a.last_err ≡ some e))

abbrev pub Answers : Option (Result Error Conn) → Type 0
Answers o = (r : Result Error Conn) × (o ≡ some r)

next_record-Ended :
    (o : Result Error MxConn) (again : Error → Result Error Attempts) (a : Attempts)
    → ((e : Error) → Ended (again e))
    → Ended (next_record o again a)
unfolding next_record
next_record-Ended (ok x) again a h = inl refl
next_record-Ended (err e) again a h = h e

try_records-Ended :
    (n : Network) (domain : Text) (records : List Mx) (a : Attempts)
    → (records ≡ [] → Ended (ok a))
    → Ended (try_records n domain records a)
unfolding try_records
try_records-Ended n domain [] a h = h refl
try_records-Ended n domain (r ∷ rs) a h =
    let ps = n.policies domain r.host in
    let left = client_after n ps r.host a.conn.dnssec_ok a.conn.client in
    elim (Bool-cases (text_eq r.host (text "."))) [
      | inl b ↦ rw b tt
      | inr b ↦ rw b (
          next_record-Ended (attempt_mx (n.dial r.host) ps r.host a.conn.dnssec_ok)
            (λ e. try_records n domain rs (failed_with e left a)) a
            (λ e. try_records-Ended n domain rs (failed_with e left a) (λ z. inr (e, refl))))
    ]

bail_out-Answers :
    (b : Bool) (a : Attempts) (e : Option Error)
    → (b ≡ true) ⊎ ((e' : Error) × (e ≡ some e'))
    → Answers (bail_out b a e)
unfolding bail_out
bail_out-Answers true a e h = (ok a.conn, refl)
bail_out-Answers false a (some e) h = (_, refl)
bail_out-Answers false a none (inl h) = absurd (ground (arith, h))
bail_out-Answers false a none (inr (e, h)) = absurd (ground (arith, h))

after_records-Answers : (o : Result Error Attempts) → Ended o → Answers (after_records o)
unfolding after_records
after_records-Answers (err e) h = (err e, refl)
after_records-Answers (ok a) h = bail_out-Answers a.conn.client a a.last_err h

or_domain-Answers :
    (n : Network) (domain asked : Text) (records : List Mx) (a : Attempts)
    → Answers (after_records (try_records n domain (or_domain asked records) a))
unfolding or_domain
or_domain-Answers n domain asked [] a =
    let only = domain_mx asked ∷ [] in
    after_records-Answers (try_records n domain only a)
      (try_records-Ended n domain only a (λ z. absurd (ground (arith, z))))
or_domain-Answers n domain asked (r ∷ rs) a =
    after_records-Answers (try_records n domain (r ∷ rs) a)
      (try_records-Ended n domain (r ∷ rs) a (λ z. absurd (ground (arith, z))))

with_records-Answers :
    (n : Network) (now limit : ℕ) (domain asked : Text) (o : Result Error (Bool × List Mx))
    → Answers (with_records n now limit domain (looked_up n asked o))
unfolding with_records looked_up
with_records-Answers n now limit domain asked (err e) = (_, refl)
with_records-Answers n now limit domain asked (ok (ad, records)) =
    or_domain-Answers n domain asked (sort_records records)
      (no_attempts (fresh_conn now limit domain ad))

-- `newConn` does not panic: it gives a connection or an error.
pub new_conn-Answers :
    (n : Network) (now limit : ℕ) (domain : Text) → Answers (new_conn n now limit domain)
unfolding new_conn lookup_mx
new_conn-Answers n now limit domain =
    with_records-Answers n now limit domain domain (n.answer domain)
