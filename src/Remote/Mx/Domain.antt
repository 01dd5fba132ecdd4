-- ===== src/Remote/Mx/Domain.antt =====
-- `newConn` keeps the domain that it is called for.
use sirr_mesh.Base.{
  ℕ, ◌≡◌, refl, subst, Bool, true, false, Option, none, some, List, [], ◌∷◌, Bool-cases, inl, inr,
  text_eq, Text, text, Result, ok, err,
}
use sirr_mesh.Exterrors.{Error}
use sirr_mesh.Remote.Connect.{MxConn, attempt_mx}
use sirr_mesh.Remote.Mx.{
  Mx, Conn, Network, Attempts, lookup_mx, client_after, failed_with, next_record, try_records,
  bail_out, after_records, fresh_conn, no_attempts, with_records, new_conn,
}

abbrev Tries : Text → Result Error Attempts → Type 0
Tries d (err e) = Unit {0}
Tries d (ok a) = a.conn.domain ≡ d

abbrev Gives : Text → Option (Result Error Conn) → Type 0
Gives d (some (ok c)) = c.domain ≡ d
Gives d _ = Unit {0}

next_record-Tries :
    (d : Text) (o : Result Error MxConn) (again : Error → Result Error Attempts) (a : Attempts)
    → a.conn.domain ≡ d
    → ((e : Error) → Tries d (again e))
    → Tries d (next_record o again a)
unfolding next_record
next_record-Tries d (ok x) again a h t = h
next_record-Tries d (err e) again a h t = t e

try_records-Tries :
    (n : Network) (asked d : Text) (records : List Mx) (a : Attempts)
    → a.conn.domain ≡ d
    → Tries d (try_records n asked records a)
unfolding try_records
try_records-Tries n asked d [] a h = h
try_records-Tries n asked d (r ∷ rs) a h =
    let ps = n.policies asked r.host in
    let left = client_after n ps r.host a.conn.dnssec_ok a.conn.client in
    elim (Bool-cases (text_eq r.host (text "."))) [
      | inl b ↦ rw b tt
      | inr b ↦ rw b (
          next_record-Tries d (attempt_mx (n.dial r.host) ps r.host a.conn.dnssec_ok)
            (λ e. try_records n asked rs (failed_with e left a)) a h
            (λ e. try_records-Tries n asked d rs (failed_with e left a) h))
    ]

bail_out-Gives :
    (d : Text) (b : Bool) (a : Attempts) (e : Option Error)
    → a.conn.domain ≡ d
    → Gives d (bail_out b a e)
unfolding bail_out
bail_out-Gives d true a e h = h
bail_out-Gives d false a none h = tt
bail_out-Gives d false a (some e) h = tt

after_records-Gives : (d : Text) (o : Result Error Attempts) → Tries d o → Gives d (after_records o)
unfolding after_records
after_records-Gives d (err e) h = tt
after_records-Gives d (ok a) h = bail_out-Gives d a.conn.client a a.last_err h

with_records-Gives :
    (n : Network) (now limit : ℕ) (d : Text) (o : Result Error (Bool × List Mx))
    → Gives d (with_records n now limit d o)
unfolding with_records
with_records-Gives n now limit d (err e) = tt
with_records-Gives n now limit d (ok (ad, records)) =
    let start = no_attempts (fresh_conn now limit d ad) in
    after_records-Gives d (try_records n d records start)
      (try_records-Tries n d d records start refl)

pub new_conn-domain :
    (n : Network) (now limit : ℕ) (d : Text) (c : Conn)
    → new_conn n now limit d ≡ some (ok c)
    → c.domain ≡ d
unfolding new_conn
new_conn-domain n now limit d c h =
    subst (Gives d) h (with_records-Gives n now limit d (lookup_mx n d))
