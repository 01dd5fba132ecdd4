-- ===== src/Remote/Connect/Met.antt =====
-- Policies are met by every connection that is used.
use sirr_mesh.Base.{
  ℕ, ◌≡◌, ◌≢◌, ◌≤◌, refl, subst, ap, inl, inr, Bool, true, false, none, some, List, [], ◌∷◌, All,
  arith, Bool-cases, Text, Result, ok, err,
}
use sirr_mesh.Exterrors.{Error}
use sirr_mesh.Remote.Dane.{Tlsa, ConnState, verify_dane}
use sirr_mesh.Remote.Policy.{
  StsPolicy, Policy, mtasts, sts_preload, dnssec, dane, local_policy, check_mx, check_conn,
  unmatched, sts_conn, dane_level, dane_conn, local_mx, local_conn,
}
use sirr_mesh.Remote.Connect.{
  Dial, Connected, MxConn, raise, raise_then, mx_levels, conn_levels, with_levels, with_connection,
  with_mx, attempt_mx, connect, require_tls, require_levels,
}

-- What a policy asks of the MX and its level.
abbrev pub MxMet : Text → ℕ → Policy → Type 0
MxMet mx m (mtasts (ok sts)) = sts.enforced ≡ true → sts.matches mx ≡ true
MxMet mx m (local_policy min_tls min_mx) = min_mx ≤ m
MxMet mx m _ = Unit {0}

-- What a policy asks of the connection and its level.
abbrev pub ConnMet : ConnState → ℕ → Policy → Type 0
ConnMet c t (mtasts (ok sts)) =
    sts.enforced ≡ true → (c.handshake_complete ≡ true) × (c.verified ≡ true)
ConnMet c t (dane (some (ok recs))) = recs ≢ [] → c.handshake_complete ≡ true
ConnMet c t (dane (some (err (false, e)))) = true ≡ false
ConnMet c t (local_policy min_tls min_mx) = min_tls ≤ t
ConnMet c t _ = Unit {0}

sts_matches :
    (sts : StsPolicy) (mx : Text) {k : ℕ}
    → check_mx (mtasts (ok sts)) 0 mx true ≡ ok k
    → sts.enforced ≡ true
    → sts.matches mx ≡ true
unfolding check_mx unmatched
sts_matches sts mx h e = ground (arith, h, e)

check_mx-MxMet :
    (p : Policy) (level : ℕ) (mx : Text) (ad : Bool) (k : ℕ)
    → check_mx p level mx ad ≡ ok k
    → MxMet mx level p
unfolding check_mx local_mx
check_mx-MxMet (mtasts (ok sts)) level mx ad k h = sts_matches sts mx h
check_mx-MxMet (local_policy min_tls min_mx) level mx ad k h = ground (arith, h)
check_mx-MxMet (mtasts (err e)) level mx ad k h = tt
check_mx-MxMet sts_preload level mx ad k h = tt
check_mx-MxMet dnssec level mx ad k h = tt
check_mx-MxMet (dane d) level mx ad k h = tt

verify_dane-handshake :
    (recs : List Tlsa) (c : ConnState) {k : ℕ}
    → dane_level (verify_dane recs c) ≡ ok k
    → recs ≢ []
    → c.handshake_complete ≡ true
unfolding dane_level verify_dane
verify_dane-handshake [] c h ne = absurd (ne refl)
verify_dane-handshake (rec ∷ recs) c h ne = elim (Bool-cases c.handshake_complete) [
  | inl e ↦ e
  | inr e ↦ absurd (ground (arith, (rw e at h)))
]

sts_conn-verified :
    (b : Bool) (c : ConnState) {k : ℕ}
    → sts_conn b c ≡ ok k
    → b ≡ true
    → (c.handshake_complete ≡ true) × (c.verified ≡ true)
unfolding sts_conn
sts_conn-verified true c h e = (ground (arith, h), ground (arith, h))
sts_conn-verified false c h e = absurd (ground (arith, e))

check_conn-ConnMet :
    (p : Policy) (level : ℕ) (c : ConnState) (k : ℕ)
    → check_conn p level c ≡ ok k
    → ConnMet c level p
unfolding check_conn dane_conn local_conn
check_conn-ConnMet (mtasts (ok sts)) level c k h = sts_conn-verified sts.enforced c h
check_conn-ConnMet (mtasts (err e)) level c k h = tt
check_conn-ConnMet sts_preload level c k h = tt
check_conn-ConnMet dnssec level c k h = tt
check_conn-ConnMet (dane none) level c k h = tt
check_conn-ConnMet (dane (some (ok recs))) level c k h = verify_dane-handshake recs c h
check_conn-ConnMet (dane (some (err (true, e)))) level c k h = tt
check_conn-ConnMet (dane (some (err (false, e)))) level c k h = absurd (ground (arith, h))
check_conn-ConnMet (local_policy min_tls min_mx) level c k h = ground (arith, h)

MxMet-raise : (p : Policy) (mx : Text) (m n : ℕ) → m ≤ n → MxMet mx m p → MxMet mx n p
MxMet-raise (mtasts (ok sts)) mx m n le h = h
MxMet-raise (local_policy min_tls min_mx) mx m n le h = omega arith
MxMet-raise (mtasts (err e)) mx m n le h = tt
MxMet-raise sts_preload mx m n le h = tt
MxMet-raise dnssec mx m n le h = tt
MxMet-raise (dane d) mx m n le h = tt

ConnMet-raise : (p : Policy) (c : ConnState) (m n : ℕ) → m ≤ n → ConnMet c m p → ConnMet c n p
ConnMet-raise (mtasts (ok sts)) c m n le h = h
ConnMet-raise (local_policy min_tls min_mx) c m n le h = omega arith
ConnMet-raise (mtasts (err e)) c m n le h = tt
ConnMet-raise sts_preload c m n le h = tt
ConnMet-raise dnssec c m n le h = tt
ConnMet-raise (dane none) c m n le h = tt
ConnMet-raise (dane (some (ok recs))) c m n le h = h
ConnMet-raise (dane (some (err (true, e)))) c m n le h = tt
ConnMet-raise (dane (some (err (false, e)))) c m n le h = h

raise_le : (level k : ℕ) → level ≤ raise level k
raise_le level k = ground arith

-- A loop that ends well has the next level and ends well from there.
raise_then-ok :
    (level : ℕ) (r : Result Error ℕ) (next : ℕ → Result Error ℕ) {m : ℕ}
    → raise_then level r next ≡ ok m
    → (k : ℕ) × (r ≡ ok k) × (next (raise level k) ≡ ok m)
unfolding raise_then
raise_then-ok level (ok k) next h = (k, refl, h)
raise_then-ok level (err e) next h = absurd (ground (arith, h))

mx_levels-MxMet :
    (mx : Text) (ad : Bool) (ps : List Policy) (level : ℕ) {m : ℕ}
    → mx_levels mx ad ps level ≡ ok m
    → (level ≤ m) × All (MxMet mx m) ps
unfolding mx_levels
mx_levels-MxMet mx ad [] level h = (ground (arith, h), tt)
mx_levels-MxMet mx ad (p ∷ ps) level {m} h =
    let (k, one, rest) = raise_then-ok level (check_mx p level mx ad) (mx_levels mx ad ps) h in
    let (le, met) = mx_levels-MxMet mx ad ps (raise level k) rest in
    let low = raise_le level k in
    (
      omega arith,
      (MxMet-raise p mx level m (omega arith) (check_mx-MxMet p level mx ad k one), met),
    )

conn_levels-ConnMet :
    (c : ConnState) (ps : List Policy) (level : ℕ) {t : ℕ}
    → conn_levels c ps level ≡ ok t
    → (level ≤ t) × All (ConnMet c t) ps
unfolding conn_levels
conn_levels-ConnMet c [] level h = (ground (arith, h), tt)
conn_levels-ConnMet c (p ∷ ps) level {t} h =
    let (k, one, rest) = raise_then-ok level (check_conn p level c) (conn_levels c ps) h in
    let (le, met) = conn_levels-ConnMet c ps (raise level k) rest in
    let low = raise_le level k in
    (
      omega arith,
      (ConnMet-raise p c level t (omega arith) (check_conn-ConnMet p level c k one), met),
    )

-- What the policies ask, and what REQUIRETLS asks.
abbrev pub Met : List Policy → Text → Bool → MxConn → Type 0
Met ps mx required x =
    All (MxMet mx x.mx_level) ps
    × All (ConnMet x.connected.state x.tls_level) ps
    × (required ≡ true → (2 ≤ x.tls_level) × (1 ≤ x.mx_level))

require_tls-levels :
    (required : Bool) (x : MxConn)
    → require_tls required x ≡ none
    → required ≡ true
    → (2 ≤ x.tls_level) × (1 ≤ x.mx_level)
unfolding require_levels
require_tls-levels true x h e = (ground (arith, h), ground (arith, h))
require_tls-levels false x h e = absurd (ground (arith, e))

ok_inj : {A : Type 0} {a b : A} → ◌≡◌ {A = Result Error A} (ok a) (ok b) → a ≡ b
ok_inj {A} {a} h = ap (value_or a) h
  where
    value_or : A → Result Error A → A
    value_or d (ok x) = x
    value_or d (err e) = d

abbrev Passes : List Policy → Text → MxConn → Type 0
Passes ps mx x = All (MxMet mx x.mx_level) ps × All (ConnMet x.connected.state x.tls_level) ps

with_levels-Passes :
    (ps : List Policy) (mx : Text) (m : ℕ) (c : Connected) (r : Result Error ℕ) {x : MxConn}
    → All (MxMet mx m) ps
    → conn_levels c.state ps c.level ≡ r
    → with_levels m c r ≡ ok x
    → Passes ps mx x
unfolding with_levels
with_levels-Passes ps mx m c (err e) met levels h = absurd (ground (arith, h))
with_levels-Passes ps mx m c (ok t) met levels h =
    subst (Passes ps mx) (ok_inj h) (met, (conn_levels-ConnMet c.state ps c.level levels).1)

with_connection-Passes :
    (ps : List Policy) (mx : Text) (m : ℕ) (r : Result Error Connected) {x : MxConn}
    → All (MxMet mx m) ps
    → with_connection ps m r ≡ ok x
    → Passes ps mx x
unfolding with_connection
with_connection-Passes ps mx m (err e) met h = absurd (ground (arith, h))
with_connection-Passes ps mx m (ok c) met h =
    with_levels-Passes ps mx m c (conn_levels c.state ps c.level) met refl h

with_mx-Passes :
    (w : Dial) (ps : List Policy) (mx : Text) (ad : Bool) (r : Result Error ℕ) {x : MxConn}
    → mx_levels mx ad ps 0 ≡ r
    → with_mx w ps r ≡ ok x
    → Passes ps mx x
unfolding with_mx
with_mx-Passes w ps mx ad (err e) levels h = absurd (ground (arith, h))
with_mx-Passes w ps mx ad (ok m) levels h =
    with_connection-Passes ps mx m (connect w) (mx_levels-MxMet mx ad ps 0 levels).1 h

-- A connection that `attemptMX` accepts meets every policy, in whatever order they stand: an enforced
-- MTA-STS policy matches the MX, and its certificate was verified in a complete handshake; if there are
-- DANE records the handshake is complete, and their lookup did not fail; and the levels of the MX and
-- of TLS are at least those of each local policy. With REQUIRETLS, a connection that is then used is
-- authenticated and so is its MX.
pub attempt_mx-Met :
    (w : Dial) (ps : List Policy) (mx : Text) (ad required : Bool) {x : MxConn}
    → attempt_mx w ps mx ad ≡ ok x
    → require_tls required x ≡ none
    → Met ps mx required x
unfolding attempt_mx
attempt_mx-Met w ps mx ad required {x} h r =
    let (mx_met, conn_met) = with_mx-Passes w ps mx ad (mx_levels mx ad ps 0) refl h in
    (mx_met, conn_met, require_tls-levels required x r)
