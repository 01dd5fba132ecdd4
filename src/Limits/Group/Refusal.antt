-- ===== src/Limits/Group/Refusal.antt =====
-- A message that a limit refuses, and what the group has counted then.
use sirr_mesh.Base.{ℕ, ◌≡◌, refl, subst, inl, inr, none, some, List, Text, Option-cases}
use sirr_mesh.Limits.Limiters.{Leaf, Denied, took, refused, panicked, take_all, release_all}
use sirr_mesh.Limits.Limiters.Undo.{SpentAll, Restores, take_all-Restores}
use sirr_mesh.Limits.Buckets.{BucketSet, take_key}
use sirr_mesh.Limits.Group.{
  Group, with_global, release_global, release_ip, refuse, after_source, take_source, after_ip,
  take_ip, after_global, take_msg,
}

-- Without limits by address, a message that the limit of its source refuses makes the server panic:
-- the set of the addresses is released though there is none.
take_msg-no_ip :
    (now : ℕ) (addr domain : Text) (g : Group) {ls : List Leaf} {s t : BucketSet} {e : Denied}
    → take_all g.global ≡ took ls
    → g.ip ≡ none
    → g.source ≡ some s
    → take_key now domain s ≡ refused e t
    → take_msg now addr domain g ≡ panicked
unfolding take_msg after_global take_ip take_source after_source release_global release_ip
    with_global refuse
take_msg-no_ip now addr domain g {ls} {s} {t} {e} all no_ip src no_room =
    rw (all, no_ip, src, no_room)
      (elim (Option-cases (release_all ls)) [ inl n ↦ rw n refl | inr (ms, q) ↦ rw q refl ])

-- A message that the limit of its address refuses leaves no global limit taken: each semaphore of
-- the global limits is as it was.
take_msg-ip_refused :
    (now : ℕ) (addr domain : Text) (g : Group) {ls : List Leaf} {s t : BucketSet} {e : Denied}
    → take_all g.global ≡ took ls
    → g.ip ≡ some s
    → take_key now addr s ≡ refused e t
    → (h : Group) × (take_msg now addr domain g ≡ refused e h) × SpentAll g.global h.global
unfolding take_msg after_global take_ip after_ip release_global with_global refuse
take_msg-ip_refused now addr domain g {ls} {s} {t} {e} all has_ip no_room =
    let (ms, q, sp) = subst (Restores g.global) all (take_all-Restores g.global) in
    (record g { global = ms; ip = some t }, rw (all, has_ip, no_room, q) refl, sp)
