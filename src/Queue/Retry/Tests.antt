-- ===== src/Queue/Retry/Tests.antt =====
-- A message to three recipients, and witnesses.
use sirr_mesh.Base.{
  ℕ, ◌*◌, ◌+◌, ◌-◌, true, false, ◌≡◌, refl, none, some, [], ◌∷◌, arith, All, text, text_eq,
}
use sirr_mesh.Exterrors.{Smtp, plain, smtp_leaf, is_temporary_or_unspec}
use sirr_mesh.Queue.Deliver.{Errs}
use sirr_mesh.Queue.Retry.{Meta, count_of, initial_retry_time, retry_delay, sort_meta, try_delivery}
use sirr_mesh.Queue.Retry.Sorting.{pick, before, to_retry, to_fail, Distinct, sort_meta_lem}
use sirr_mesh.Queue.Retry.Bounded.{left_after, left_after_lem}
use sirr_mesh.Queue.Retry.Delay.{IsFloor, retry_delay_bounds}

abbrev rejected : Smtp
rejected = record {
  code = 550;
  enhanced_code = record { major = 5; subject = 1; detail = 1 };
  message = text "no such user";
  check_name = [];
  target_name = [];
  modifier_name = [];
  reason = [];
  misc = [];
}

abbrev meta : Meta
meta = record {
  to = text "a" ∷ text "b" ∷ text "c" ∷ [];
  rcpt_errs = [];
  tries_count = (text "b", 1) ∷ [];
}

-- `a` is delivered, `b` fails for now, `c` for good.
abbrev errs : Errs
errs = (text "b", plain (text "timeout")) ∷ (text "c", smtp_leaf rejected) ∷ []

meta-Distinct : Distinct meta.to
unfolding text_eq
meta-Distinct = ((refl, (refl, tt)), ((refl, tt), (tt, tt)))

sort_run : (sort_meta 20 errs meta).new_rcpts ≡ text "b" ∷ []
unfolding sort_meta text_eq is_temporary_or_unspec
sort_run = refl

-- A recipient given twice, with one try left, is reported as failed and tried again, and its counter
-- starts anew.
abbrev twice : Meta
twice = record { to = text "b" ∷ text "b" ∷ []; rcpt_errs = []; tries_count = (text "b", 18) ∷ [] }

twice_run :
    ((sort_meta 20 errs twice).new_rcpts ≡ text "b" ∷ [])
    × ((sort_meta 20 errs twice).failed_rcpts ≡ text "b" ∷ [])
    × (count_of (text "b") (sort_meta 20 errs twice).tries ≡ 0)
unfolding sort_meta text_eq is_temporary_or_unspec
twice_run = (refl, refl, refl)

sort_meta_lem_example :
    ((sort_meta 20 errs meta).new_rcpts ≡ pick (to_retry 20 errs (before meta)) meta.to)
    × ((sort_meta 20 errs meta).failed_rcpts ≡ pick (to_fail 20 errs (before meta)) meta.to)
    × All
        (λ r. count_of r (sort_meta 20 errs meta).tries ≡ before meta r + 1)
        (sort_meta 20 errs meta).new_rcpts
sort_meta_lem_example = sort_meta_lem 20 errs meta meta-Distinct

-- The second write fails, and so the counters on disk are those of the first one.
left_after_lem_example :
    left_after 2 ((errs, true) ∷ (errs, false) ∷ (errs, true) ∷ []) (some meta) ≡ none
left_after_lem_example =
    left_after_lem 2 errs true ((errs, false) ∷ (errs, true) ∷ []) meta meta-Distinct (omega arith)

-- While the metadata cannot be written, all recipients are tried again, the one that got the message
-- too, however often they were.
stuck :
    left_after 3 ((errs, false) ∷ (errs, false) ∷ (errs, false) ∷ (errs, false) ∷ []) (some meta)
    ≡ some meta
unfolding left_after try_delivery sort_meta text_eq is_temporary_or_unspec
stuck = refl

retry_delay_bounds_example : (q : ℕ) × (retry_delay 5 ≡ initial_retry_time * q) × IsFloor (5 - 1) q
retry_delay_bounds_example = retry_delay_bounds 5 (omega arith) (omega arith)
