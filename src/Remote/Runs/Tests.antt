-- ===== src/Remote/Runs/Tests.antt =====
-- Deliveries to a server that has STARTTLS with a certificate that is verified.
use sirr_mesh.Base.{
  ℕ, ◌≡◌, refl, Bool, true, false, Option, none, some, List, [], ◌∷◌, ◌++◌, Text, text, text_eq,
  lookup, insert, has_prefix, split_last, equal_fold_ascii, ok,
}
use sirr_mesh.Exterrors.{Error, plain}
use sirr_mesh.Address.Syntax.{split, is_ascii}
use sirr_mesh.Remote.Dane.{ConnState}
use sirr_mesh.Remote.Policy.{Policy, local_policy, check_mx, check_conn}
use sirr_mesh.Remote.Connect.{Dialed, attempt_mx, mx_levels, conn_levels, connect, require_levels}
use sirr_mesh.Remote.Pool.{get}
use sirr_mesh.Remote.Pool.Weights.{weigh}
use sirr_mesh.Remote.Mx.{Conn, Network, new_conn, lookup_mx, sort_records}
use sirr_mesh.Remote.Mx.Settled.{Settled, new_conn-Settled}
use sirr_mesh.Remote.Client.{Server, send_mail, send_rcpt, wrap_client_err, conn_usable}
use sirr_mesh.Remote.Start.{
  LimitOps, Target, Meta, Rd, World, Started, started, start, ratelimit_domain,
}
use sirr_mesh.Remote.Delivery.{add_rcpt, connection_for_domain}
use sirr_mesh.Remote.Delivery.Required.{Secure}
use sirr_mesh.Remote.Delivery.Balance.{Share, for_msg, for_dest, Log, is_held, recorder}
use sirr_mesh.Remote.Sending.{Statuses, body_non_atomic, close}
use sirr_mesh.Remote.Sending.Statuses.{has_status}
use sirr_mesh.Limits.Limiters.{Leaf, new_semaphore, take_all, release_all}
use sirr_mesh.Limits.Buckets.{BucketSet, take_key, release_key, limiter_at}
use sirr_mesh.Limits.Group.{Group, make_group, take_msg, take_dest, release_msg, release_dest}
use sirr_mesh.Remote.Runs.{add_rcpts, group_limits}
use sirr_mesh.Remote.Runs.Whole.{accepted-has_status, accepted-Secure, whole-released}

abbrev verified : ConnState
verified = record {
  handshake_complete = true;
  verified = true;
  server_name = text "mx";
  leaf = record { is_ca = false; id = 1 };
  chain = [];
  verifies = λ roots rest. true;
}

abbrev answers : Dialed
answers = record {
  connect_err = none;
  starttls = true;
  starttls_err = none;
  hello_err = none;
  tls_state = verified;
}

abbrev network : Network
network = record {
  answer = λ domain. ok (
    true,
    (record { host = text "mx2"; pref = 20 }) ∷ (record { host = text "mx1"; pref = 10 }) ∷ [],
  );
  unwrap_dns_err = λ e. ([], []);
  dial = λ host. record { dialed = λ mode. answers; is_verify = λ e. false; has_config = true };
  quits = λ host. true;
  policies = λ domain host. local_policy 1 0 ∷ [];
}

abbrev accepting : Server
accepting = record {
  smtp_utf8 = λ c. true;
  requiretls = λ c. false;
  mail = λ c from. none;
  rcpt = λ c to. none;
  data_cmd = λ c. none;
  reset = λ c. true;
  name_of = λ c. text "mx1";
  casts = record { is_tls_error = λ e. false; op_error = λ e. none };
  to_ascii = λ a. (a, none);
  shown = λ e. plain [];
}

abbrev world : World
world = record { now = 0; net = network; server = accepting; denied = λ d. plain [] }

abbrev target : Target
target = record {
  rt_policies = λ domain host. local_policy 1 0 ∷ [];
  allow_sec_override = true;
  relaxed_requiretls = true;
  conn_reuse_limit = 10;
  max_keys = 5000;
  max_conns_per_key = 5;
  max_conn_lifetime_sec = 150;
  stale_key_lifetime_sec = 300;
}

abbrev message : Meta
message = record {
  quarantine = false;
  tls_require_override = false;
  require_tls = false;
  utf8 = false;
  remote_addr = none;
}

abbrev limits : LimitOps Log
limits = recorder (λ x g. true)

abbrev nothing : Log
nothing = record { log_taken = []; log_released = [] }

abbrev calls : List (World × Text)
calls = (world, text "u@a.org") ∷ (world, text "v@a.org") ∷ (world, text "w@b.org") ∷ []

abbrev ready : Rd Log
ready = record {
  mail_from = text "s@c.org";
  msg_meta = message;
  policies = target.rt_policies;
  recipients = [];
  connections = [];
  limits = record { log_taken = for_msg (text "127.0.0.1") (text "c.org") ∷ []; log_released = [] };
  pool = some [];
  closed = [];
}

start_run : start limits target world message (text "s@c.org") nothing (some []) ≡ started ready
unfolding start ratelimit_domain split split_last equal_fold_ascii text_eq
start_run = refl

abbrev mx_conn : Text → List Text → Conn
mx_conn d rcpts = record {
  domain = d;
  dnssec_ok = true;
  errored = false;
  reuse_limit = 10;
  transactions = 0;
  last_use_at = 0;
  mx_level = 0;
  tls_level = 2;
  client = true;
  rcpts = rcpts;
}

abbrev accepted : Rd Log
accepted = record ready {
  recipients = text "u@a.org" ∷ text "v@a.org" ∷ text "w@b.org" ∷ [];
  connections =
      (text "a.org", mx_conn (text "a.org") (text "u@a.org" ∷ text "v@a.org" ∷ []))
      ∷ (text "b.org", mx_conn (text "b.org") (text "w@b.org" ∷ []))
      ∷ [];
  limits = record {
    log_taken =
        for_dest (text "b.org")
        ∷ for_dest (text "a.org")
        ∷ for_msg (text "127.0.0.1") (text "c.org")
        ∷ [];
    log_released = [];
  };
}

calls_run : add_rcpts limits target calls ready ≡ some accepted
unfolding add_rcpts add_rcpt connection_for_domain split split_last equal_fold_ascii text_eq lookup
    insert has_prefix get new_conn lookup_mx sort_records attempt_mx mx_levels conn_levels connect
    check_mx check_conn require_levels send_mail send_rcpt is_ascii
calls_run = refl

accepted-has_status_example :
    has_status (text "v@a.org") (body_non_atomic accepting (λ c. none) 0 accepted).1 ≡ true
unfolding text_eq is_ascii
accepted-has_status_example =
    accepted-has_status limits target world message (text "s@c.org") nothing (some []) calls ready
      accepted accepting (λ c. none) 0 (text "v@a.org") (λ c. refl, (λ c. refl, (λ c. refl, tt)))
      start_run calls_run refl

accepted-Secure_example : Secure accepted
accepted-Secure_example =
    accepted-Secure limits target world message (text "s@c.org") nothing (some []) calls ready
      accepted start_run calls_run

mail_accepted : (c : Conn) (utf8 : Bool) (from : Text) → send_mail accepting c utf8 from ≡ none
unfolding send_mail
mail_accepted c true from = refl
mail_accepted c false from = refl

whole-released_example :
    (rd' : Rd Log) × (close limits target accepting 0
        (body_non_atomic accepting (λ c. none) 0 accepted).0
      ≡ some (rd', none))
    × ((v : Share → ℕ) → weigh v rd'.limits.log_taken ≡ weigh v rd'.limits.log_released)
whole-released_example =
    whole-released (λ x g. true) target world message (text "s@c.org") nothing (some []) calls ready
      accepted accepting (λ c. none) 0 (mail_accepted, (mail_accepted, (mail_accepted, tt)))
      (λ v. refl) tt start_run calls_run

new_conn-Settled_example : Settled network (text "a.org") (mx_conn (text "a.org") [])
unfolding new_conn lookup_mx sort_records attempt_mx mx_levels conn_levels connect check_mx
    check_conn text_eq
new_conn-Settled_example =
    new_conn-Settled network (λ mx. refl) 0 10 (text "a.org") (mx_conn (text "a.org") []) refl

-- A server that refuses MAIL: the slot of its domain is taken, and `Close` does not release it.
abbrev refusing : World
refusing = record world { server = record accepting { mail = λ c from. some (plain (text "no")) } }

abbrev leaked : Option (Rd Log × Option Error) → Option (List Share × List Share)
leaked none = none
leaked (some (rd, e)) = some (rd.limits.log_taken, rd.limits.log_released)

abbrev closed_after : Option (Rd Log × Option Error) → Option (Rd Log × Option Error)
closed_after none = none
closed_after (some (rd, e)) = close limits target accepting 0 rd

slot_leaked :
    leaked (closed_after (add_rcpt limits target refusing (text "u@a.org") ready))
    ≡ some (
      for_dest (text "a.org") ∷ for_msg (text "127.0.0.1") (text "c.org") ∷ [],
      for_msg (text "127.0.0.1") (text "c.org") ∷ [],
    )
unfolding close add_rcpt connection_for_domain split split_last equal_fold_ascii text_eq lookup
    insert has_prefix get new_conn lookup_mx sort_records attempt_mx mx_levels conn_levels connect
    check_mx check_conn require_levels send_mail wrap_client_err is_held ratelimit_domain
slot_leaked = refl

-- The next message that uses the connection: its only recipient is `x@a.org`, and `BodyNonAtomic` sets the
-- statuses of the recipients of the first message too.
abbrev next_message : Rd Log
next_message = record ready {
  pool = some (
      (
        text "a.org",
        record { conns = mx_conn (text "a.org") (text "u@a.org" ∷ []) ∷ []; last_use = 0 },
      )
      ∷ []);
}

abbrev statuses_after : Option (Rd Log × Option Error) → Statuses
statuses_after none = []
statuses_after (some (rd, e)) = (body_non_atomic accepting (λ c. none) 0 rd).1

stale_recipients :
    statuses_after (add_rcpt limits target world (text "x@a.org") next_message)
    ≡ (text "u@a.org", none) ∷ (text "x@a.org", none) ∷ []
unfolding body_non_atomic add_rcpt connection_for_domain split split_last equal_fold_ascii text_eq
    lookup insert has_prefix get require_levels send_mail send_rcpt conn_usable is_ascii
stale_recipients = refl

-- With `relaxed_requiretls`, a server without REQUIRETLS switches the requirement off for the domains that
-- come after its own.
abbrev asking : Rd Log
asking = record ready { msg_meta = record message { require_tls = true } }

abbrev asks : Option (Rd Log × Option Error) → Option Bool
asks none = none
asks (some (rd, e)) = some rd.msg_meta.require_tls

requirement_dropped :
    asks (
      add_rcpt limits target world
        (text "u@a.org")
        (record asking { policies = λ d h. Policy.dnssec ∷ [] }))
    ≡ some false
unfolding add_rcpt connection_for_domain split split_last equal_fold_ascii text_eq lookup insert
    has_prefix get new_conn lookup_mx sort_records attempt_mx mx_levels conn_levels connect check_mx
    check_conn require_levels send_mail send_rcpt is_ascii
requirement_dropped = refl

-- The limits of the configuration serve as well.
group : Group
group =
    make_group (record { global_limits = []; ip_limits = []; source_limits = []; dest_limits = [] })

abbrev recipients_of : {G : Type 0} → Started G → Option (List Text)
recipients_of (started rd) = some rd.recipients
recipients_of s = none

group_start :
    recipients_of (start (group_limits 0) target world message (text "s@c.org") group (some []))
    ≡ some []
unfolding group make_group take_msg start ratelimit_domain split split_last equal_fold_ascii text_eq
group_start = refl

-- A whole delivery gives back to limits on concurrency what it took.
busy : Group
busy = make_group (record {
  global_limits = new_semaphore 5 ∷ [];
  ip_limits = new_semaphore 5 ∷ [];
  source_limits = new_semaphore 5 ∷ [];
  dest_limits = new_semaphore 5 ∷ [];
})

abbrev leaves_of : Option BucketSet → List Leaf
leaves_of none = []
leaves_of (some s) = limiter_at (text "a.org") s ++ limiter_at (text "b.org") s

abbrev closing : Option (Rd Group) → Option (Rd Group × Option Error)
closing none = none
closing (some rd) = close (group_limits 0) target accepting 0 rd

abbrev whole : Started Group → Option (Rd Group × Option Error)
whole (started rd) = closing (add_rcpts (group_limits 0) target calls rd)
whole s = none

abbrev slots_left : Option (Rd Group × Option Error) → Option (List Leaf × List Leaf)
slots_left none = none
slots_left (some (rd, e)) = some (rd.limits.global, leaves_of rd.limits.dest)

group_released :
    slots_left (whole (start (group_limits 0) target world message (text "s@c.org") busy (some [])))
    ≡ some (new_semaphore 5 ∷ [], new_semaphore 5 ∷ new_semaphore 5 ∷ [])
unfolding busy make_group take_msg take_dest release_msg release_dest take_key release_key take_all
    release_all limiter_at start close add_rcpts add_rcpt connection_for_domain split split_last
    equal_fold_ascii text_eq lookup insert has_prefix get new_conn lookup_mx sort_records attempt_mx
    mx_levels conn_levels connect check_mx check_conn require_levels send_mail send_rcpt is_ascii
    ratelimit_domain conn_usable
group_released = refl
