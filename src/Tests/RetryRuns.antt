-- ===== src/Tests/RetryRuns.antt =====
-- Runs of internal/retry/retry.go.
use webhookery.Common.{◌-◌, ◌*◌, ◌/◌, ◌^◌, ◌≡◌, refl, arith}
use webhookery.Common.Int.{pos, negsuc, wrap64}
use webhookery.Retry.{
  Rng, seeded, default_policy, hour, second, delay_cap, next_delay, normalize_attempt, double_until,
  min_duration,
}
use webhookery.Retry.Delay.{IsSane, UpTo, delay_cap-min, next_delay-UpTo}

sane : IsSane default_policy (10 * second) (6 * hour)
sane = record {
  initial_is = refl;
  max_is = refl;
  initial_small = omega arith;
  cap_small = omega arith;
}

halved : Rng
halved = seeded (λ n. n / 2)

delay_cap-min_example : delay_cap default_policy (pos 5) ≡ pos 320_000_000_000
unfolding normalize_attempt
delay_cap-min_example = delay_cap-min default_policy (10 * second) (6 * hour) (pos 5) sane

next_delay-UpTo_example : UpTo (6 * hour) (next_delay default_policy (pos 30) halved)
unfolding normalize_attempt halved
next_delay-UpTo_example =
    next_delay-UpTo default_policy (10 * second) (6 * hour) (pos 30) halved sane
      (λ n h. omega arith)

-- A cap above 2 ^ 62 ns lets the doubling wrap to a negative delay.
wrapped :
    delay_cap
      (record default_policy { initial_delay = pos (2 ^ 62); max_delay = pos (2 ^ 63 - 1) })
      (pos 1)
    ≡ negsuc (2 ^ 63 - 1)
unfolding delay_cap double_until min_duration normalize_attempt wrap64
wrapped = refl
