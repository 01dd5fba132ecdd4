-- ===== src/Queue/Retry/Delay.antt =====
-- The delay of the next try.
use sirr_mesh.Base.{
  passes_below, passes_below_lem, ◌||◌, ℕ, ◌+◌, ◌-◌, ◌*◌, ◌^◌, ◌≤◌, ◌<◌, ◌≡◌, refl, Bool, true,
  ◌&&◌, arith, ltb, leb, ◌==◌,
}
use sirr_mesh.Queue.Retry.{initial_retry_time, scale_factor, retry_delay}

abbrev in_bounds : ℕ → Bool
in_bounds n =
    n == 0
    || retry_delay n == initial_retry_time * scale_factor n
      && (leb (4 ^ (n - 1) * scale_factor n) (5 ^ (n - 1))
          && ltb (5 ^ (n - 1)) (4 ^ (n - 1) * (scale_factor n + 1)))

in_bounds_table : passes_below in_bounds 21 ≡ true
unfolding passes_below retry_delay scale_factor
in_bounds_table = refl

-- The number `q` is the power `1.25 ^ m` rounded down.
abbrev pub IsFloor : ℕ → ℕ → Type 0
IsFloor m q = (4 ^ m * q ≤ 5 ^ m) × (5 ^ m < 4 ^ m * (q + 1))

-- From 1 to 20 tries the delay is exactly the initial delay times the power of the formula of the source,
-- `1.25 ^ (n-1)`, rounded down to a whole number.
pub retry_delay_bounds :
    (n : ℕ)
    → 1 ≤ n
    → n ≤ 20
    → (q : ℕ) × (retry_delay n ≡ initial_retry_time * q) × IsFloor (n - 1) q
retry_delay_bounds n h k = (
  scale_factor n,
  ground (arith, passes_below_lem in_bounds 21 n in_bounds_table),
  ground (arith, passes_below_lem in_bounds 21 n in_bounds_table),
)

abbrev is_flat : ℕ → Bool
is_flat n = n == 0 || retry_delay n == initial_retry_time

is_flat_table : passes_below is_flat 5 ≡ true
unfolding passes_below retry_delay
is_flat_table = refl

-- The formula grows with every try, and yet the first four retries all wait for the initial delay.
retry_delay_flat : (n : ℕ) → 1 ≤ n → n ≤ 4 → retry_delay n ≡ initial_retry_time
retry_delay_flat n h k = ground (arith, passes_below_lem is_flat 5 n is_flat_table)
