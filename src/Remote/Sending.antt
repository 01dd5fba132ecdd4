-- ===== src/Remote/Sending.antt =====
-- internal/target/remote/remote.go: `BodyNonAtomic`, `Body` with `multipleErrs`, and `Close`, which is
-- `Commit` and `Abort`.
--
-- The goroutines of `BodyNonAtomic` each set the statuses of their own connection; they run here in the order
-- of the map. `opens` is what `Buffer.Open` answers for a connection. The calls of `SetStatus` are a
-- list, in order.
pub mod Statuses
pub mod Finished
use sirr_mesh.Base.{
  ℕ, ◌+◌, Bool, true, false, ◌||◌, ◌++◌, ◌==◌, Option, none, some, List, [], ◌∷◌, if◌then◌else◌,
  length, Text, text, Map, insert, Result, ok, err,
}
use sirr_mesh.Exterrors.{Error, EnhancedCode, Value, int, enhanced, str, is_temporary}
use sirr_mesh.Address.Errors.{Err}
use sirr_mesh.Remote.Pool.{return_conn}
use sirr_mesh.Remote.Mx.{Conn, remote_error}
use sirr_mesh.Remote.Client.{Server, conn_usable, send_data}
use sirr_mesh.Remote.Start.{LimitOps, Target, Rd, pool_config, source_addr, ratelimit_domain}

abbrev pub Statuses : Type 0
Statuses = List (Text × Option Error)

-- The loop of `SetStatus` over recipients.
abbrev pub set_all : List Text → Option Error → Statuses
set_all [] e = []
set_all (r ∷ rs) e = (r, e) ∷ set_all rs e

abbrev pub is_error : Option Error → Bool
is_error none = false
is_error (some e) = true

quarantined : Error
quarantined =
    remote_error 550 (record { major = 5; subject = 7; detail = 0 })
      (text "Refusing to deliver quarantined message")

module _ (s : Server) (opens : Conn → Option Error) (now : ℕ) where
  -- One goroutine: the connection after it, and the status of its recipients.
  sent_on : Conn → Option Error → Conn × Option Error
  unfolding send_data
  sent_on c (some e) = (c, some e)
  sent_on c none =
      let e = send_data s c in (record c { errored = is_error e; last_use_at = now }, e)

  send_on : Conn → Conn × Option Error
  unfolding sent_on
  send_on c = sent_on c (opens c)

  send_all : Map Conn → Map Conn × Statuses
  unfolding send_on
  send_all [] = ([], [])
  send_all ((i, c) ∷ conns) =
      let (c', e) = send_on c in
      let (rest, statuses) = send_all conns in ((i, c') ∷ rest, set_all c.rcpts e ++ statuses)

  body_unless : {G : Type 0} → Bool → Rd G → Rd G × Statuses
  unfolding send_all quarantined
  body_unless true rd = (rd, set_all rd.recipients (some quarantined))
  body_unless false rd =
      let (conns, statuses) = send_all rd.connections in
      (record rd { connections = conns }, statuses)

  -- `BodyNonAtomic`
  unfoldable pub body_non_atomic : {G : Type 0} → Rd G → Rd G × Statuses
  unfolding body_unless
  body_non_atomic rd = body_unless rd.msg_meta.quarantine rd

-- `multipleErrs.SetStatus`, for each of the calls.
unfoldable pub collect : Map (Option Error) → Statuses → Map (Option Error)
unfolding insert
collect errs [] = errs
collect errs ((r, e) ∷ statuses) = collect (insert r e errs) statuses

-- What `Body` returns: nil, the error of the only recipient, or the `multipleErrs`.
pub data Failure : Type 0 where
  no_failure : Failure
  one_failure : Error → Failure
  many_failures : Map (Option Error) → Failure

-- The loop of `Body` over the map, `errs` being the whole of it.
first_failure : Map (Option Error) → Map (Option Error) → Failure
first_failure errs [] = no_failure
first_failure errs ((r, none) ∷ rest) = first_failure errs rest
first_failure errs ((r, some e) ∷ rest) =
    if length errs == 1 then one_failure e else many_failures errs

unfoldable pub failure_of : Map (Option Error) → Failure
unfolding first_failure
failure_of errs = first_failure errs errs

-- `Body`
unfoldable pub body : {G : Type 0} → Server → (Conn → Option Error) → ℕ → Rd G → Rd G × Failure
unfolding body_non_atomic collect failure_of
body s opens now rd =
    let (rd', statuses) = body_non_atomic s opens now rd in (rd', failure_of (collect [] statuses))

any_temporary : Map (Option Error) → Bool
unfolding is_temporary
any_temporary [] = false
any_temporary ((r, none) ∷ errs) = any_temporary errs
any_temporary ((r, some e) ∷ errs) = is_temporary e || any_temporary errs

partial_code : Bool → ℕ × EnhancedCode
partial_code true = (451, record { major = 4; subject = 0; detail = 0 })
partial_code false = (550, record { major = 5; subject = 0; detail = 0 })

-- `multipleErrs.Fields`, less `errs`; the loop sets the same codes each time.
unfoldable pub multiple_fields : Map (Option Error) → Map Value
unfolding any_temporary partial_code
multiple_fields errs =
    let (code, ench) = partial_code (any_temporary errs) in
    (text "smtp_code", int code)
    ∷ (text "smtp_enchcode", enhanced ench)
    ∷ (
      text "smtp_msg",
      str (text "Partial delivery failure, additional attempts may result in duplicates"),
    )
    ∷ (text "target", str (text "remote"))
    ∷ []

module _ {G : Type 0} (ops : LimitOps G) (rt : Target) (s : Server) (now : ℕ) where
  -- One round of the loop of `Close`, after `ReleaseDest`.
  give_back : Conn → Rd G → Rd G
  unfolding return_conn conn_usable
  give_back c rd =
      let c' = record c { transactions = c.transactions + 1 } in
      let returned = return_conn (pool_config rt s) now c.domain c' rd.pool in
      if conn_usable s c'
      then record rd { pool = returned.left; closed = returned.closed ++ rd.closed }
      else record rd { closed = c' ∷ rd.closed }

  released : Conn → Rd G → Option G → Option (Rd G)
  unfolding give_back
  released c rd none = none
  released c rd (some g) = some (give_back c (record rd { limits = g }))

  infixl 5 ◌>>=◌
  abbrev ◌>>=◌ : {A B : Type 0} → Option A → (A → Option B) → Option B
  none >>= next = none
  some a >>= next = next a

  close_conns : Map Conn → Rd G → Option (Rd G)
  unfolding released
  close_conns [] rd = some rd
  close_conns ((i, c) ∷ conns) rd = do
    rd' ← released c rd (ops.op_release_dest c.domain rd.limits)
    close_conns conns rd'

  with_limits : Rd G → Option G → Option (Rd G × Option Error)
  with_limits rd none = none
  with_limits rd (some g) = some (record rd { limits = g }, none)

  close_msg : Rd G → Result Err Text → Option (Rd G × Option Error)
  unfolding with_limits
  close_msg rd (err e) = some (rd, some (s.shown e))
  close_msg rd (ok domain) =
      with_limits rd (ops.op_release_msg (source_addr rd.msg_meta) domain rd.limits)

  -- `Close`
  unfoldable pub close : Rd G → Option (Rd G × Option Error)
  unfolding close_conns close_msg ratelimit_domain
  close rd = do rd' ← close_conns rd.connections rd; close_msg rd' (ratelimit_domain rd'.mail_from)
