-- ===== src/Remote/Start.antt =====
-- internal/target/remote/remote.go: the state of a delivery, and `Start`.
--
-- `Rd` is the `remoteDelivery` with what it shares with the target: the limits, the pool, and the list of the
-- connections that were closed. `LimitOps` are the operations of a `limits.Group`, which Remote/Runs
-- fills. The remote address of the message is its text, with the fallback that `Start` and `Close` have.
pub mod Fresh
use sirr_mesh.Base.{
  ℕ, Bool, ◌&&◌, Option, none, some, List, [], ◌∷◌, if◌then◌else◌, Text, text, Map, Result, ok, err,
}
use sirr_mesh.Exterrors.{Error, smtp_error}
use sirr_mesh.Address.Errors.{Err}
use sirr_mesh.Address.Syntax.{split}
use sirr_mesh.Limits.Limiters.{Denied, Taken, took, refused, panicked}
use sirr_mesh.Remote.Policy.{Policy}
use sirr_mesh.Remote.Pool.{Pool, Config}
use sirr_mesh.Remote.Mx.{Conn, Network, new_conn}
use sirr_mesh.Remote.Client.{Server, conn_usable}

pub record LimitOps (G : Type 0) : Type 0 where
  pub op_take_msg : Text → Text → G → Taken G
  pub op_take_dest : Text → G → Taken G
  pub op_release_msg : Text → Text → G → Option G
  pub op_release_dest : Text → G → Option G

pub record Target : Type 0 where
  pub rt_policies : Text → Text → List Policy
  pub allow_sec_override : Bool
  pub relaxed_requiretls : Bool
  pub conn_reuse_limit : ℕ
  pub max_keys : ℕ
  pub max_conns_per_key : ℕ
  pub max_conn_lifetime_sec : ℕ
  pub stale_key_lifetime_sec : ℕ

-- The fields of `MsgMetadata` that are read.
pub record Meta : Type 0 where
  pub quarantine : Bool
  pub tls_require_override : Bool
  pub require_tls : Bool
  pub utf8 : Bool
  pub remote_addr : Option Text

pub record Rd (G : Type 0) : Type 0 where
  pub mail_from : Text
  pub msg_meta : Meta
  pub policies : Text → Text → List Policy
  pub recipients : List Text
  pub connections : Map Conn
  pub limits : G
  pub pool : Pool Conn
  pub closed : List Conn

-- What the network answers while an operation runs.
pub record World : Type 0 where
  pub now : ℕ
  pub net : Network
  pub server : Server
  -- an error of the limits
  pub denied : Denied → Error

abbrev pub pool_config : Target → Server → Config Conn
pool_config rt s = record {
  new_conn = λ key. ok none;
  max_keys = rt.max_keys;
  max_conns_per_key = rt.max_conns_per_key;
  max_conn_lifetime_sec = rt.max_conn_lifetime_sec;
  stale_key_lifetime_sec = rt.stale_key_lifetime_sec;
  usable = conn_usable s;
  last_use_at = λ c. c.last_use_at;
}

abbrev pub source_addr : Meta → Text
source_addr m = elim (m.remote_addr) [ none ↦ text "127.0.0.1" | some a ↦ a ]

domain_part : Result Err (Text × Text) → Result Err Text
domain_part (err e) = err e
domain_part (ok (mailbox, domain)) = ok domain

-- `ratelimitDomain`
unfoldable pub ratelimit_domain : Text → Result Err Text
unfolding domain_part split
ratelimit_domain [] = ok []
ratelimit_domain (c ∷ cs) = domain_part (split (c ∷ cs))

pub data Started (G : Type 0) : Type 0 where
  started : Rd G → Started G
  not_started : Error → G → Started G
  start_panic : Started G

abbrev policies_for : Target → Meta → Text → Text → List Policy
policies_for rt m =
    if m.tls_require_override && rt.allow_sec_override then (λ domain host. []) else rt.rt_policies

module _ {G : Type 0} (ops : LimitOps G) (rt : Target) (w : World) where
  open_delivery : Meta → Text → Pool Conn → Taken G → Started G
  open_delivery m from pool (took g) = started (record {
    mail_from = from;
    msg_meta = m;
    policies = policies_for rt m;
    recipients = [];
    connections = [];
    limits = g;
    pool = pool;
    closed = [];
  })
  open_delivery m from pool (refused d g) =
      not_started
        (smtp_error
          (record {
            code = 451;
            enhanced_code = record { major = 4; subject = 4; detail = 5 };
            message = text "High load, try again later";
            check_name = [];
            target_name = text "remote";
            modifier_name = [];
            reason = text "Global limit timeout";
            misc = [];
          })
          (w.denied d))
        g
  open_delivery m from pool panicked = start_panic

  start_domain : Meta → Text → G → Pool Conn → Result Err Text → Started G
  unfolding open_delivery
  start_domain m from g pool (err e) =
      not_started
        (smtp_error
          (record {
            code = 501;
            enhanced_code = record { major = 5; subject = 1; detail = 8 };
            message = text "Malformed sender address";
            check_name = [];
            target_name = text "remote";
            modifier_name = [];
            reason = [];
            misc = [];
          })
          (w.server.shown e))
        g
  start_domain m from g pool (ok domain) =
      open_delivery m from pool (ops.op_take_msg (source_addr m) domain g)

  -- `Start`
  unfoldable pub start : Meta → Text → G → Pool Conn → Started G
  unfolding start_domain ratelimit_domain
  start m from g pool = start_domain m from g pool (ratelimit_domain from)
