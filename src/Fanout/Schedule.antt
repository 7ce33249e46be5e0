-- ===== src/Fanout/Schedule.antt =====
-- How a rate limit spaces the deliveries of a replay (internal/app/delivery_fanout.go).
use native.Mathlib.Nat.{
  div-add-mod, mul-add, mul_comm, mul_assoc, mul-le-mul_left, mul-le-mul, div-le_self,
}
use webhookery.Common.{ℕ, zero, suc, ◌+◌, ◌*◌, ◌/◌, ◌%◌, ◌^◌, ◌≤◌, ◌<◌, ◌≡◌, sym, ap, ◌∙◌, arith}
use webhookery.Common.Int.{pos, wrap64_small}
use webhookery.Fanout.{minute, replay_schedule_delay}

spaced : (i rate q rem : ℕ) → rate * q + rem ≡ minute → i * q * rate + i * rem ≡ i * minute
spaced i rate q rem h =
    ap (λ k. k + i * rem) (mul_assoc i q rate ∙ ap (λ k. i * k) (mul_comm q rate))
    ∙ sym (mul-add i (rate * q) rem)
    ∙ ap (λ k. i * k) h

fits : (i rate : ℕ) → i < 2 ^ 27 → i * (minute / suc rate) < 2 ^ 63
fits i rate h =
    let below : i ≤ 2 ^ 27 = omega arith in
    omega (arith, mul-le-mul below (div-le_self minute (suc rate)))

delay_at :
    (index rate : ℕ)
    → index < 2 ^ 27
    → replay_schedule_delay index (pos (suc rate)) ≡ pos (index * (minute / suc rate))
unfolding replay_schedule_delay
delay_at zero rate h = ap pos (omega arith)
delay_at (suc index) rate h = wrap64_small _ (fits (suc index) rate h)

-- Under a limit of `suc rate` deliveries a minute, the delivery with the index waits as long as
-- that many deliveries take at an even pace, less the rounding of the interval to whole
-- nanoseconds, which is at most one nanosecond for each delivery.
pub replay_schedule_delay_even :
    (index rate : ℕ)
    → index < 2 ^ 27
    → (d : ℕ) × (replay_schedule_delay index (pos (suc rate)) ≡ pos d)
      × (d * suc rate ≤ index * minute)
      × (index * minute ≤ d * suc rate + index * rate)
replay_schedule_delay_even index rate h = (
  index * (minute / suc rate),
  delay_at index rate h,
  omega (arith, whole),
  omega (arith, whole, rounding),
)
  where
    whole : index * (minute / suc rate) * suc rate + index * (minute % suc rate) ≡ index * minute
    whole =
        spaced index (suc rate) (minute / suc rate) (minute % suc rate)
          (div-add-mod minute (suc rate))

    rounding : index * (minute % suc rate) ≤ index * rate
    rounding = mul-le-mul_left index (omega arith)
