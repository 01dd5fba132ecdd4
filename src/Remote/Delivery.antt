-- ===== src/Remote/Delivery.antt =====
-- internal/target/remote: `AddRcpt` of remote.go, `connectionForDomain` of connect.go.
--
-- A connection is owned by one delivery, so it is a value. `none` is a panic.
pub mod Steps
pub mod Required
pub mod Balance
pub mod Same
pub mod Accepted
use sirr_mesh.Base.{
  Bool, true, false, not, ◌&&◌, ◌++◌, Option, none, some, [], ◌∷◌, if◌then◌else◌, Text, text,
  lookup, insert, has_prefix, Result, ok, err,
}
use sirr_mesh.Exterrors.{Error, str, with_fields}
use sirr_mesh.Address.Errors.{Err}
use sirr_mesh.Address.Syntax.{split}
use sirr_mesh.Limits.Limiters.{Taken, took, refused, panicked}
use sirr_mesh.Remote.Connect.{require_levels}
use sirr_mesh.Remote.Pool.{get}
use sirr_mesh.Remote.Mx.{Conn, new_conn, remote_error}
use sirr_mesh.Remote.Client.{send_mail, send_rcpt}
use sirr_mesh.Remote.Start.{LimitOps, Target, Rd, World, pool_config}

module _ {G : Type 0} (ops : LimitOps G) (rt : Target) (w : World) where
  abbrev close_conn : Conn → Rd G → Rd G
  close_conn c rd = record rd { closed = c ∷ rd.closed }

  -- An operation leaves the delivery with a connection, or an error.
  abbrev pub Outcome : Type 0
  Outcome = Rd G × Result Error Conn

  -- After `conn.Mail`: the slot of the destination is not released on an error.
  mailed : Text → Rd G → Conn → Option Error → Outcome
  unfolding insert
  mailed domain rd c (some e) = (close_conn c rd, err e)
  mailed domain rd c none =
      let used = record c { last_use_at = w.now } in
      (record rd { connections = insert domain used rd.connections }, ok used)

  -- `rd.rt.relaxedREQUIRETLS && !ok`: the requirement is dropped for the rest of the message.
  abbrev relax : Conn → Rd G → Rd G
  relax c rd =
      if rt.relaxed_requiretls && not (w.server.requiretls c)
      then record rd { msg_meta = record (rd.msg_meta) { require_tls = false } }
      else rd

  pub dest_taken : Text → Rd G → Conn → Taken G → Option Outcome
  unfolding mailed send_mail
  dest_taken domain rd c (took g) =
      let rd₁ = relax c (record rd { limits = g }) in
      some (mailed domain rd₁ c (send_mail w.server c rd₁.msg_meta.utf8 rd₁.mail_from))
  dest_taken domain rd c (refused d g) =
      some (close_conn c (record rd { limits = g }), err (w.denied d))
  dest_taken domain rd c panicked = none

  levels_checked : Text → Rd G → Conn → Option Error → Option Outcome
  unfolding dest_taken
  levels_checked domain rd c (some e) = some (close_conn c rd, err e)
  levels_checked domain rd c none = dest_taken domain rd c (ops.op_take_dest domain rd.limits)

  check_levels : Text → Rd G → Conn → Option Outcome
  unfolding levels_checked require_levels
  check_levels domain rd c =
      levels_checked domain rd c (require_levels rd.msg_meta.require_tls c.tls_level c.mx_level)

  opened_new : Text → Rd G → Option (Result Error Conn) → Option Outcome
  unfolding check_levels
  opened_new domain rd none = none
  opened_new domain rd (some (err e)) = some (rd, err e)
  opened_new domain rd (some (ok c)) = check_levels domain rd c

  open_new : Text → Rd G → Option Outcome
  unfolding opened_new new_conn
  open_new domain rd =
      opened_new domain rd
        (new_conn (record (w.net) { policies = rd.policies }) w.now rt.conn_reuse_limit domain)

  -- A pooled connection is left out, and not closed, for a message with REQUIRETLS.
  use_pooled : Text → Rd G → Bool → Option Conn → Option Outcome
  unfolding check_levels open_new
  use_pooled domain rd false (some c) = check_levels domain rd c
  use_pooled domain rd true (some c) = open_new domain rd
  use_pooled domain rd required none = open_new domain rd

  from_pool : Text → Rd G → Result Error (Option Conn) → Option Outcome
  unfolding use_pooled
  from_pool domain rd (err e) = some (rd, err e)
  from_pool domain rd (ok o) = use_pooled domain rd rd.msg_meta.require_tls o

  connect_domain : Text → Rd G → Option Conn → Option Outcome
  unfolding from_pool get
  connect_domain domain rd (some c) = some (rd, ok c)
  connect_domain domain rd none =
      let got = get (pool_config rt w.server) w.now domain rd.pool in
      from_pool domain (record rd { pool = got.pool; closed = got.got_closed ++ rd.closed })
        got.conn

  -- `connectionForDomain`
  unfoldable pub connection_for_domain : Text → Rd G → Option Outcome
  unfolding connect_domain lookup
  connection_for_domain domain rd = connect_domain domain rd (lookup domain rd.connections)

  abbrev pub Added : Type 0
  Added = Rd G × Option Error

  module_error : Error → Error
  unfolding with_fields
  module_error e = with_fields e ((text "target", str (text "remote")) ∷ [])

  -- After `conn.Rcpt`; the connection of the map is changed.
  pub rcpt_sent : Text → Text → Rd G → Result Error Conn → Added
  unfolding module_error insert
  rcpt_sent to domain rd (err e) = (rd, some (module_error e))
  rcpt_sent to domain rd (ok c) = (
    record rd {
      recipients = rd.recipients ++ (to ∷ []);
      connections = insert domain (record c { last_use_at = w.now }) rd.connections;
    },
    none,
  )

  with_conn : Text → Text → Option Outcome → Option Added
  unfolding rcpt_sent send_rcpt
  with_conn to domain none = none
  with_conn to domain (some (rd, err e)) = some (rd, some e)
  with_conn to domain (some (rd, ok c)) = some (rcpt_sent to domain rd (send_rcpt w.server c to))

  -- `strings.HasPrefix(domain, "[")`
  rcpt_domain : Text → Rd G → Text → Option Added
  unfolding with_conn connection_for_domain has_prefix
  rcpt_domain to rd [] = some (
    rd,
    some (
        remote_error 550 (record { major = 5; subject = 1; detail = 1 })
          (text "<postmaster> address it no supported")),
  )
  rcpt_domain to rd (c ∷ cs) =
      if has_prefix (text "[") (c ∷ cs)
      then some (
        rd,
        some (
            remote_error 550 (record { major = 5; subject = 1; detail = 1 })
              (text "IP address literals are not supported")),
      )
      else with_conn to (c ∷ cs) (connection_for_domain (c ∷ cs) rd)

  rcpt_parts : Text → Rd G → Result Err (Text × Text) → Option Added
  unfolding rcpt_domain
  rcpt_parts to rd (err e) = some (rd, some (w.server.shown e))
  rcpt_parts to rd (ok (mailbox, domain)) = rcpt_domain to rd domain

  rcpt_unless : Bool → Text → Rd G → Option Added
  unfolding rcpt_parts split
  rcpt_unless true to rd = some (
    rd,
    some (
        remote_error 550 (record { major = 5; subject = 7; detail = 0 })
          (text "Refusing to deliver a quarantined message")),
  )
  rcpt_unless false to rd = rcpt_parts to rd (split to)

  -- `AddRcpt`
  unfoldable pub add_rcpt : Text → Rd G → Option Added
  unfolding rcpt_unless
  add_rcpt to rd = rcpt_unless rd.msg_meta.quarantine to rd
