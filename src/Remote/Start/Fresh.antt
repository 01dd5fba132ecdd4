-- ===== src/Remote/Start/Fresh.antt =====
-- The delivery that `Start` gives.
use sirr_mesh.Base.{◌≡◌, refl, subst, [], Text, Result, ok, err}
use sirr_mesh.Address.Errors.{Err}
use sirr_mesh.Limits.Limiters.{Taken, took, refused, panicked}
use sirr_mesh.Remote.Pool.{Pool}
use sirr_mesh.Remote.Mx.{Conn}
use sirr_mesh.Remote.Start.{
  LimitOps, Target, Meta, Rd, World, Started, started, start, start_domain, open_delivery,
  source_addr, ratelimit_domain,
}

module _ {G : Type 0} (ops : LimitOps G) (rt : Target) (w : World) where
  -- It has no recipients and no connections, and a slot for its message.
  abbrev pub IsFresh : Meta → Text → G → Pool Conn → Started G → Type 0
  IsFresh m from g pool (started rd) =
      (rd.mail_from ≡ from)
      × (rd.msg_meta ≡ m)
      × (rd.pool ≡ pool)
      × (rd.connections ≡ [])
      × (rd.recipients ≡ [])
      × ((d : Text) × (ratelimit_domain from ≡ ok d)
          × (ops.op_take_msg (source_addr m) d g ≡ took rd.limits))
  IsFresh m from g pool s = Unit {0}

  open_delivery-IsFresh :
      (m : Meta) (from d : Text) (g : G) (pool : Pool Conn) (t : Taken G)
      → ratelimit_domain from ≡ ok d
      → ops.op_take_msg (source_addr m) d g ≡ t
      → IsFresh m from g pool (open_delivery ops rt w m from pool t)
  unfolding open_delivery
  open_delivery-IsFresh m from d g pool (took g') e t = (refl, refl, refl, refl, refl, (d, e, t))
  open_delivery-IsFresh m from d g pool (refused r g') e t = tt
  open_delivery-IsFresh m from d g pool panicked e t = tt

  start_domain-IsFresh :
      (m : Meta) (from : Text) (g : G) (pool : Pool Conn) (o : Result Err Text)
      → ratelimit_domain from ≡ o
      → IsFresh m from g pool (start_domain ops rt w m from g pool o)
  unfolding start_domain
  start_domain-IsFresh m from g pool (err e) h = tt
  start_domain-IsFresh m from g pool (ok d) h =
      open_delivery-IsFresh m from d g pool (ops.op_take_msg (source_addr m) d g) h refl

  pub start-IsFresh :
      (m : Meta) (from : Text) (g : G) (pool : Pool Conn) (rd : Rd G)
      → start ops rt w m from g pool ≡ started rd
      → IsFresh m from g pool (started rd)
  unfolding start
  start-IsFresh m from g pool rd h =
      subst (IsFresh m from g pool) h
        (start_domain-IsFresh m from g pool (ratelimit_domain from) refl)
