-- ===== src/Remote/Mx.antt =====
-- internal/target/remote/connect.go: `lookupMX`, `newConn`, and the fields of `mxConn`.
--
-- The world says what the lookups and the servers answer: `answer` is that of the resolver in use, `dial`
-- what a connection to a host meets, `quits` whether QUIT succeeds there. `C.Client() != nil` is `client`,
-- and `none` is a panic. `sort.Slice` is insertion, as it is for up to twelve records; the timeouts are
-- left out.
pub mod Settled
pub mod Answers
pub mod Domain
use sirr_mesh.Base.{
  ℕ, Bool, true, false, not, Option, none, some, List, [], ◌∷◌, ◌++◌, if◌then◌else◌, ltb, text_eq,
  Text, text, Map, Result, ok, err,
}
use sirr_mesh.Exterrors.{
  Error, EnhancedCode, Value, smtp_leaf, smtp_error, smtp_code, smtp_ench_code, message_of, str,
}
use sirr_mesh.Remote.Policy.{Policy}
use sirr_mesh.Remote.Connect.{
  Mode, verifying, plaintext, Dial, Connected, MxConn, mx_levels, connect, attempt_mx,
}

pub record Mx : Type 0 where
  pub host : Text
  pub pref : ℕ

pub record Conn : Type 0 where
  pub domain : Text
  pub dnssec_ok : Bool
  pub errored : Bool
  pub reuse_limit : ℕ
  pub transactions : ℕ
  pub last_use_at : ℕ
  pub mx_level : ℕ
  pub tls_level : ℕ
  -- of `smtpconn.C`
  pub client : Bool
  pub rcpts : List Text

pub record Network : Type 0 where
  pub answer : Text → Result Error (Bool × List Mx)
  -- `UnwrapDNSErr`
  pub unwrap_dns_err : Error → Text × Map Value
  pub dial : Text → Dial
  pub quits : Text → Bool
  -- after `PrepareDomain` and `PrepareConn`
  pub policies : Text → Text → List Policy

abbrev pub remote_error : ℕ → EnhancedCode → Text → Error
remote_error code ench m = smtp_leaf (record {
  code = code;
  enhanced_code = ench;
  message = m;
  check_name = [];
  target_name = text "remote";
  modifier_name = [];
  reason = [];
  misc = [];
})

insert_mx : Mx → List Mx → List Mx
insert_mx r [] = r ∷ []
insert_mx r (q ∷ qs) = if ltb q.pref r.pref then q ∷ insert_mx r qs else r ∷ q ∷ qs

unfoldable pub sort_records : List Mx → List Mx
unfolding insert_mx
sort_records [] = []
sort_records (r ∷ rs) = insert_mx r (sort_records rs)

-- `if len(records) == 0`
abbrev pub domain_mx : Text → Mx
domain_mx domain = record { host = domain; pref = 0 }

or_domain : Text → List Mx → List Mx
or_domain domain [] = domain_mx domain ∷ []
or_domain domain (r ∷ rs) = r ∷ rs

mx_lookup_error : Network → Error → Error
unfolding smtp_code smtp_ench_code
mx_lookup_error n e =
    let (reason, misc) = n.unwrap_dns_err e in
    smtp_error
      (record {
        code = smtp_code e 451 554;
        enhanced_code = smtp_ench_code e (record { major = 0; subject = 4; detail = 4 });
        message = text "MX lookup error";
        check_name = [];
        target_name = text "remote";
        modifier_name = [];
        reason = reason;
        misc = misc;
      })
      e

looked_up : Network → Text → Result Error (Bool × List Mx) → Result Error (Bool × List Mx)
unfolding mx_lookup_error sort_records or_domain
looked_up n domain (err e) = err (mx_lookup_error n e)
looked_up n domain (ok (dnssec_ok, records)) =
    ok (dnssec_ok, or_domain domain (sort_records records))

-- `lookupMX`
unfoldable pub lookup_mx : Network → Text → Result Error (Bool × List Mx)
unfolding looked_up
lookup_mx n domain = looked_up n domain (n.answer domain)

-- The connection and `lastErr`, in the loop of `newConn`.
pub record Attempts : Type 0 where
  pub conn : Conn
  pub last_err : Option Error

first_mode : Bool → Mode
first_mode true = verifying
first_mode false = plaintext

-- Is there a client after a `Connect` that failed, or after `DirectClose`?
client_unless : Bool → Option Error → Bool
client_unless before (some e) = before
client_unless before none = false

client_after_connect : Network → Text → Bool → Result Error Connected → Bool
unfolding client_unless first_mode
client_after_connect n mx before (err e) =
    client_unless before ((n.dial mx).dialed (first_mode (n.dial mx).has_config)).connect_err
client_after_connect n mx before (ok c) = not (n.quits mx)

client_after_mx : Network → Text → Bool → Result Error ℕ → Bool
unfolding client_after_connect connect
client_after_mx n mx before (err e) = before
client_after_mx n mx before (ok level) = client_after_connect n mx before (connect (n.dial mx))

-- Whether `attemptMX` leaves a client when it fails. `Close` does, if QUIT failed.
client_after : Network → List Policy → Text → Bool → Bool → Bool
unfolding client_after_mx mx_levels
client_after n ps mx ad before = client_after_mx n mx before (mx_levels mx ad ps 0)

abbrev opened : MxConn → Attempts → Attempts
opened x a = record a {
  conn = record (a.conn) { client = true; mx_level = x.mx_level; tls_level = x.tls_level };
}

abbrev failed_with : Error → Bool → Attempts → Attempts
failed_with e b a = record { conn = record (a.conn) { client = b }; last_err = some e }

null_mx : Error
null_mx =
    remote_error 556 (record { major = 5; subject = 1; detail = 10 })
      (text "Domain does not accept email (null MX)")

-- The end of one round: `break`, or the next record.
next_record :
    Result Error MxConn → (Error → Result Error Attempts) → Attempts → Result Error Attempts
next_record (ok x) again a = ok (opened x a)
next_record (err e) again a = again e

try_records : Network → Text → List Mx → Attempts → Result Error Attempts
unfolding next_record client_after attempt_mx null_mx text_eq
try_records n domain [] a = ok a
try_records n domain (r ∷ rs) a =
    let ps = n.policies domain r.host in
    let left = client_after n ps r.host a.conn.dnssec_ok a.conn.client in
    if text_eq r.host (text ".")
    then err null_mx
    else next_record (attempt_mx (n.dial r.host) ps r.host a.conn.dnssec_ok)
        (λ e. try_records n domain rs (failed_with e left a)) a

no_usable : Text → Error → Error
unfolding message_of smtp_code smtp_ench_code
no_usable domain e =
    smtp_error
      (record {
        code = smtp_code e 451 550;
        enhanced_code = smtp_ench_code e (record { major = 0; subject = 4; detail = 0 });
        message = text "No usable MXs, last err: " ++ message_of e;
        check_name = [];
        target_name = text "remote";
        modifier_name = [];
        reason = [];
        misc = (text "domain", str domain) ∷ [];
      })
      e

-- `if conn.Client() == nil`; `lastErr.Error()` panics on nil.
bail_out : Bool → Attempts → Option Error → Option (Result Error Conn)
unfolding no_usable
bail_out true a e = some (ok a.conn)
bail_out false a none = none
bail_out false a (some e) = some (err (no_usable a.conn.domain e))

after_records : Result Error Attempts → Option (Result Error Conn)
unfolding bail_out
after_records (err e) = some (err e)
after_records (ok a) = bail_out a.conn.client a a.last_err

abbrev fresh_conn : ℕ → ℕ → Text → Bool → Conn
fresh_conn now limit domain ad = record {
  domain = domain;
  dnssec_ok = ad;
  errored = false;
  reuse_limit = limit;
  transactions = 0;
  last_use_at = now;
  mx_level = 0;
  tls_level = 0;
  client = false;
  rcpts = [];
}

abbrev pub no_attempts : Conn → Attempts
no_attempts c = record { conn = c; last_err = none }

with_records : Network → ℕ → ℕ → Text → Result Error (Bool × List Mx) → Option (Result Error Conn)
unfolding after_records try_records
with_records n now limit domain (err e) = some (err e)
with_records n now limit domain (ok (ad, records)) =
    after_records (try_records n domain records (no_attempts (fresh_conn now limit domain ad)))

-- `newConn`
unfoldable pub new_conn : Network → ℕ → ℕ → Text → Option (Result Error Conn)
unfolding with_records lookup_mx
new_conn n now limit domain = with_records n now limit domain (lookup_mx n domain)
