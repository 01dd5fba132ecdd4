-- ===== src/Dmarc/Fetch/Found.antt =====
-- What is behind a From domain and a record that are found.
use sirr_mesh.Base.{
  ◌≡◌, refl, sym, ap, ◌⊎◌, ◌≢◌, inl, inr, Option, none, some, List, [], ◌∷◌, Text, arith, Result,
  ok, err,
}
use sirr_mesh.Address.Errors.{Err}
use sirr_mesh.Address.Syntax.{split}
use sirr_mesh.Address.Syntax.Splitting.{IsSplit, split-IsSplit}
use sirr_mesh.Dmarc.Evaluate.{Domains, Record}
use sirr_mesh.Dmarc.Fetch.{
  Fail, AddressList, first_from, from_split, from_address, from_field, extract_from_domain,
  Resolver, dmarc_only, parsed, only_record, fatal, at_org, record_name, try_org, at_from,
  fetch_record,
}

-- The last of the From fields is the only one that is not empty.
abbrev pub OnlyFrom : Text → List Text → Type 0
OnlyFrom v [] = ⊥
OnlyFrom v (w ∷ []) = (w ≡ v) × (v ≢ [])
OnlyFrom v (w ∷ u ∷ values) = (w ≡ []) × OnlyFrom v (u ∷ values)

first_from-OnlyFrom :
    (w : Text) (values : List Text) {v : Text}
    → first_from w values ≡ ok v
    → OnlyFrom v (w ∷ values)
unfolding first_from
first_from-OnlyFrom [] [] h = cc
first_from-OnlyFrom (c ∷ cs) [] h = ground (arith, h)
first_from-OnlyFrom [] (v ∷ values) h = (refl, first_from-OnlyFrom v values h)
first_from-OnlyFrom (c ∷ cs) (v ∷ values) h = cc

abbrev pub Identifies : AddressList → Text → Text → Type 0
Identifies parse_list field domain =
    (a : Text) × (m : Text) × (parse_list field ≡ some (a ∷ [])) × IsSplit a m domain

from_split-ok :
    (s : Result Err (Text × Text)) {d : Text} → from_split s ≡ ok d → (m : Text) × (s ≡ ok (m, d))
unfolding from_split
from_split-ok (ok (m, d)) h = (m, ground (arith, h))
from_split-ok (err e) h = cc

from_address-one :
    (o : Option (List Text)) {d : Text}
    → from_address o ≡ ok d
    → (a : Text) × (m : Text) × (o ≡ some (a ∷ [])) × IsSplit a m d
unfolding from_address
from_address-one none h = cc
from_address-one (some []) h = cc
from_address-one (some (a ∷ b ∷ more)) h = cc
from_address-one (some (a ∷ [])) h =
    let (m, e) = from_split-ok (split a) h in (a, m, refl, split-IsSplit a e)

from_field-one :
    (parse_list : AddressList) (f : Result Fail Text) {d : Text}
    → from_field parse_list f ≡ ok d
    → (v : Text) × (f ≡ ok v) × Identifies parse_list v d
unfolding from_field
from_field-one parse_list (ok v) h = (v, refl, from_address-one (parse_list v) h)
from_field-one parse_list (err e) h = cc

OnlyFrom-tail : (v : Text) (values : List Text) → OnlyFrom v ([] ∷ values) → OnlyFrom v values
OnlyFrom-tail v [] h = absurd (h.1 (sym h.0))
OnlyFrom-tail v (w ∷ values) h = h.1

-- A From domain is found only if there is no doubt about it: the last From field is the only one
-- that is not empty, it lists one address, and the domain is the part of this address behind its
-- last at-sign (or the address is `postmaster` and the domain empty).
pub extract_from_domain-Identifies :
    (parse_list : AddressList) (values : List Text) {d : Text}
    → extract_from_domain parse_list values ≡ ok d
    → (v : Text) × OnlyFrom v values × Identifies parse_list v d
unfolding extract_from_domain
extract_from_domain-Identifies parse_list values h =
    let (v, e, found) = from_field-one parse_list (first_from [] values) h in
    (v, OnlyFrom-tail v values (first_from-OnlyFrom [] values e), found)

module _ (p : Domains) (r : Resolver) where
  abbrev pub txts_at : Text → List Text
  txts_at domain = (r.lookup_txt (record_name r domain)).0

  -- One of the TXT records of the policy domain is a DMARC record, and only one; the policy domain
  -- is the From domain, or its organizational domain if the From domain has no TXT records.
  abbrev pub FoundAt : Text → Text → Record → Type 0
  FoundAt from domain rec =
      ((domain ≡ from) ⊎ ((p.org_domain from ≡ some domain) × (txts_at from ≡ [])))
      × ((t : Text) × (dmarc_only (txts_at domain) ≡ t ∷ []) × (r.parse_record t ≡ some rec))

  parsed-some :
      (domain : Text) (o : Option Record) {d : Text} {rec : Record}
      → parsed domain o ≡ ok (some (d, rec))
      → (d ≡ domain) × (o ≡ some rec)
  unfolding parsed
  parsed-some domain none h = cc
  parsed-some domain (some x) h = ground (arith, h)

  only_record-one :
      (domain : Text) (txts : List Text) {d : Text} {rec : Record}
      → only_record r domain txts ≡ ok (some (d, rec))
      → (d ≡ domain) × ((t : Text) × (txts ≡ t ∷ []) × (r.parse_record t ≡ some rec))
  unfolding only_record
  only_record-one domain [] h = cc
  only_record-one domain (t ∷ u ∷ txts) h = cc
  only_record-one domain (t ∷ []) h =
      let (e, q) = parsed-some domain (r.parse_record t) h in (e, (t, refl, q))

  at_org-Found :
      (org : Text) (e : Option Fail) {d : Text} {rec : Record}
      → at_org r org (txts_at org) e ≡ ok (some (d, rec))
      → (d ≡ org) × ((t : Text) × (dmarc_only (txts_at d) ≡ t ∷ []) × (r.parse_record t ≡ some rec))
  unfolding at_org
  at_org-Found org (some e) h = cc
  at_org-Found org none h =
      let (e, (t, q, k)) = only_record-one org (dmarc_only (txts_at org)) h in (e, (t, rw e q, k))

  try_org-Found :
      (org : Option Text) {d : Text} {rec : Record}
      → try_org r org ≡ ok (some (d, rec))
      → (org ≡ some d)
        × ((t : Text) × (dmarc_only (txts_at d) ≡ t ∷ []) × (r.parse_record t ≡ some rec))
  unfolding try_org
  try_org-Found none h = cc
  try_org-Found (some o) h =
      let (e, found) = at_org-Found o (fatal ((r.lookup_txt (record_name r o)).1)) h in
      (ap some (sym e), found)

  at_from-FoundAt :
      (from : Text) (txts : List Text) (e : Option Fail) {d : Text} {rec : Record}
      → txts_at from ≡ txts
      → at_from p r from txts e ≡ ok (some (d, rec))
      → FoundAt from d rec
  unfolding at_from
  at_from-FoundAt from txts (some e) q h = cc
  at_from-FoundAt from [] none q h =
      let (e, found) = try_org-Found (p.org_domain from) h in (inr (e, q), found)
  at_from-FoundAt from (t ∷ txts) none q h =
      let (e, (u, one, k)) = only_record-one from (dmarc_only (t ∷ txts)) h in
      (inl e, (u, rw (e, q) one, k))

  -- A record that is found has its place: `FoundAt` says where and that it is the only one.
  pub fetch_record-FoundAt :
      (from : Text) {d : Text} {rec : Record}
      → fetch_record p r from ≡ ok (some (d, rec))
      → FoundAt from d rec
  unfolding fetch_record
  fetch_record-FoundAt from h =
      let (txts, e) = r.lookup_txt (record_name r from) in
      at_from-FoundAt from txts (fatal e) refl h
